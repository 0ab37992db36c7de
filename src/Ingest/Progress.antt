-- ===== src/Ingest/Progress.antt =====
-- `apply_batch_progress` of packages/core/dfip_core/ingest/store.py and `progress_percent` of
-- packages/core/dfip_core/ingest/progress.py.
use dfip_v.Prelude.{
  ◌≡◌, ◌≢◌, ◌↔◌, refl, ℕ, String, Bool, false, not, Option, none, some, ◌+◌, ◌*◌, ◌/◌, ◌≤◌, ◌||◌,
  ◌==◌, inl, inr, Bool-cases, string_eq, option_eq, leb, if◌then◌else◌, or_else, arith, sym, beq_ne,
}
use mathlib.Core.Option
use dfip_v.Prelude.Dates.{Moment}
use dfip_v.Prelude.Int.{ℤ, pos, negsuc, pos_part}
use dfip_v.Ingest.Records.{Progress}

-- the keyword arguments of `apply_batch_progress`
pub record Report : Type 0 where
  pub stage : Option String
  pub current : Option ℤ
  pub total : Option ℤ
  pub message : Option String

abbrev pub stage_changed : Option String → Option String → Bool
stage_changed none before = false
stage_changed (some stage) before = not (some stage == before)

-- a fresh value, or the old one unless the stage changed
abbrev pub carried {ℓ} : {A : Type ℓ} → Option A → Bool → Option A → Option A
carried (some x) changed before = some x
carried none changed before = if changed then none else before

unfoldable pub apply_batch_progress : Report → Moment → Progress → Progress
apply_batch_progress r at p =
    let changed = stage_changed r.stage p.progress_stage in
    record {
      progress_stage = or_else r.stage p.progress_stage;
      progress_current = carried r.current changed p.progress_current;
      progress_total = carried r.total changed p.progress_total;
      progress_message = carried r.message changed p.progress_message;
      progress_at = some at;
    }

-- `n // d` for a positive `d`
abbrev pub floor_div : ℤ → ℕ → ℤ
floor_div (pos n) d = pos (n / d)
floor_div (negsuc n) d = negsuc (n / d)

-- `int(current) * 100`
abbrev pub times_100 : ℤ → ℤ
times_100 (pos n) = pos (n * 100)
times_100 (negsuc n) = negsuc (n * 100 + 99)

abbrev pub capped : ℤ → ℕ
capped raw = if leb 100 (pos_part raw) then 99 else pos_part raw

unfoldable pub measured : Option ℤ → Option ℤ → Option ℕ
measured (some current) (some (pos total)) =
    if leb 1 total then some (capped (floor_div (times_100 current) total)) else none
measured _ _ = none

unfoldable pub progress_percent : Option String → Option ℤ → Option ℤ → Option ℕ
progress_percent stage current total =
    if stage == some "succeeded"
    then some 100
    else if stage == some "failed" || (stage == some "cancelled" || stage == some "cancelling")
    then none
    else measured current total

floor_div-capped : (raw : ℤ) → capped raw ≤ 99
floor_div-capped raw = ground arith

measured-bound : (current total : Option ℤ) (k : ℕ) → measured current total ≡ some k → k ≤ 99
unfolding measured
measured-bound (some c) (some (pos t)) k h = elim (Bool-cases (leb 1 t)) [
  | inl e ↦
      let h' = rw e at h in
      omega (arith, floor_div-capped (floor_div (times_100 c) t), Option.some-injective _ _ h')
  | inr e ↦ let h' = rw e at h in absurd cc
]
measured-bound none total k h = absurd cc
measured-bound (some c) none k h = absurd cc
measured-bound (some c) (some (negsuc t)) k h = absurd cc

-- A reported percentage is at most 100, and is 100 exactly in the stage "succeeded": counters alone
-- never show more than 99.
pub progress_percent_lem :
    (stage : Option String) (current total : Option ℤ) (k : ℕ)
    → progress_percent stage current total ≡ some k
    → (k ≤ 100) × ((k ≡ 100) ↔ (stage ≡ some "succeeded"))
unfolding progress_percent
progress_percent_lem stage current total k h = elim (Bool-cases (stage == some "succeeded")) [
  | inl e ↦
      let h' : some 100 ≡ some k = rw e at h in
      let k=100 = Option.some-injective _ _ h' in
      (
        omega (arith, k=100),
        (λ _. (option_eq.equal_iff stage (some "succeeded")).0 e, λ _. omega (arith, k=100)),
      )
  | inr e ↦
      elim (Bool-cases
        (stage == some "failed" || (stage == some "cancelled" || stage == some "cancelling"))) [
          | inl f ↦ let h' = rw (e, f) at h in absurd cc
          | inr f ↦
              let h' : measured current total ≡ some k = rw (e, f) at h in
              let bound = measured-bound current total k h' in
              (
                omega (arith, bound),
                (
                  λ q. absurd (omega (arith, bound, q)),
                  λ s. absurd (ground (arith, option_eq.equal_iff stage (some "succeeded"), e, s)),
                ),
              )
        ]
]

-- The next stage starts without a percentage: a report of another stage that brings no current count
-- leaves none of the previous stage's to compute one from, unless the new stage is success itself.
pub apply_batch_progress-percent :
    (r : Report) (at : Moment) (p : Progress) (stage : String)
    → r.stage ≡ some stage
    → p.progress_stage ≢ some stage
    → stage ≢ "succeeded"
    → r.current ≡ none
    → let p' = apply_batch_progress r at p in
      (p'.progress_stage ≡ some stage)
      × (progress_percent p'.progress_stage p'.progress_current p'.progress_total ≡ none)
unfolding apply_batch_progress progress_percent measured
apply_batch_progress-percent r at p stage e new unfinished c =
    let changed : (some stage == p.progress_stage) ≡ false =
      beq_ne option_eq (some stage) p.progress_stage (λ q. new (sym q)) in
    let open_ : (some stage == some "succeeded") ≡ false =
      beq_ne string_eq stage "succeeded" unfinished in
    rw (e, c, changed, open_) (refl, ground arith)
