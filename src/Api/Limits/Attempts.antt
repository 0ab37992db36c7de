-- ===== src/Api/Limits/Attempts.antt =====
-- The limiters forget old attempts as they go; this says what they answer anyway.
use dfip_v.Prelude.{
  ◌≤◌, String, ◌≡◌, refl, ap, ◌∙◌, inl, inr, Bool, not, List, [], ◌∷◌, ◌++◌, ◌==◌, ◌&&◌, string_eq,
  length, filter, filter-append, any, if◌then◌else◌, leb, arith, Bool-cases, eq_iff,
}
use dfip_v.Prelude.Dates.{Moment}
use dfip_v.Prelude.Dict.{
  lookup, insert, erase, lookup-insert, lookup-erase, UniqueKeys, insert-UniqueKeys,
  erase-UniqueKeys,
}
use dfip_v.Api.Limits.{
  Events, Window, recent, events_of, store_or_pop, prune_unlocked, is_blocked, record_failure,
  clear,
}

-- The specification: every attempt since the last clearing of its key.
abbrev pub Log : Type 0
Log = String → List Moment

abbrev pub over_log : String → List Moment → Log → Log
over_log key stamps log k = if key == k then stamps else log k

abbrev pub note_failures : List String → Moment → Log → Log
note_failures [] now log = log
note_failures (key ∷ keys) now log =
    note_failures keys now (if key == "" then log else over_log key (log key ++ (now ∷ [])) log)

abbrev pub forget : List String → Log → Log
forget [] log = log
forget (key ∷ keys) log = forget keys (over_log key [] log)

-- Some named key has as many attempts within the window as the limiter allows.
abbrev pub is_exhausted : Window → List String → Moment → Log → Bool
is_exhausted w keys now log =
    any (λ key. not (key == "") && leb w.max_failures (length (filter (recent w now) (log key))))
      keys

-- a call of the limiter, with the reading of the clock where it takes one
pub data Call : Type 0 where
  asks : List String → Moment → Call
  fails : List String → Moment → Call
  clears : List String → Call

-- the answers of `is_blocked` over a sequence of calls, by the limiter and by the specification
abbrev pub answers : Window → List Call → Events → List Bool
answers w [] s = []
answers w (asks keys now ∷ calls) s =
    (is_blocked w keys now s).1 ∷ answers w calls (is_blocked w keys now s).0
answers w (fails keys now ∷ calls) s = answers w calls (record_failure w keys now s)
answers w (clears keys ∷ calls) s = answers w calls (clear keys s)

abbrev pub expected_answers : Window → List Call → Log → List Bool
expected_answers w [] log = []
expected_answers w (asks keys now ∷ calls) log =
    is_exhausted w keys now log ∷ expected_answers w calls log
expected_answers w (fails keys now ∷ calls) log =
    expected_answers w calls (note_failures keys now log)
expected_answers w (clears keys ∷ calls) log = expected_answers w calls (forget keys log)

-- `time.monotonic` never goes back.
abbrev pub Monotonic : Moment → List Call → Type 0
Monotonic now [] = Unit
Monotonic now (asks keys t ∷ calls) = (now ≤ t) × Monotonic t calls
Monotonic now (fails keys t ∷ calls) = (now ≤ t) × Monotonic t calls
Monotonic now (clears keys ∷ calls) = Monotonic now calls

module _ (w : Window) where
  -- From `now` on the limiter and the log show the same recent attempts under every key.
  record Simulates (now : Moment) (s : Events) (log : Log) : Type 0 where
    unique : UniqueKeys s
    same :
        (key : String) (t : Moment)
        → now ≤ t
        → filter (recent w t) (events_of key s) ≡ filter (recent w t) (log key)

  filter-recent :
      (now t : Moment)
      → now ≤ t
      → (xs : List Moment) → filter (recent w t) (filter (recent w now) xs) ≡ filter (recent w t) xs
  unfolding filter
  filter-recent now t le [] = refl
  filter-recent now t le (x ∷ xs) = ground (arith, filter-recent now t le xs)

  events_of-store_or_pop :
      (key k : String) (events : List Moment) (s : Events)
      → UniqueKeys s
      → events_of k (store_or_pop key events s) ≡ (if key == k then events else events_of k s)
  events_of-store_or_pop key k [] s u = rw (lookup-erase key k s u) (ground arith)
  events_of-store_or_pop key k (e ∷ events) s u =
      rw (lookup-insert key k (e ∷ events) s) (ground arith)

  store_or_pop-UniqueKeys :
      (key : String) (events : List Moment) (s : Events)
      → UniqueKeys s
      → UniqueKeys (store_or_pop key events s)
  store_or_pop-UniqueKeys key [] s u = erase-UniqueKeys key s u
  store_or_pop-UniqueKeys key (e ∷ events) s u = insert-UniqueKeys key (e ∷ events) s u

  later-Simulates :
      (now t : Moment) (s : Events) (log : Log) → now ≤ t → Simulates now s log → Simulates t s log
  later-Simulates now t s log le sim = record {
    unique = sim.unique;
    same = λ key u h. sim.same key u (omega arith);
  }

  prune-Simulates :
      (key : String) (now : Moment) (s : Events) (log : Log)
      → Simulates now s log
      → Simulates now (prune_unlocked w key now s).0 log
  unfolding prune_unlocked
  prune-Simulates key now s log sim = record {
    unique = store_or_pop-UniqueKeys key (filter (recent w now) (events_of key s)) s sim.unique;
    same = λ k t le.
        rw (events_of-store_or_pop key k (filter (recent w now) (events_of key s)) s sim.unique)
          (elim (Bool-cases (key == k)) [
            | inl e ↦ rw e (
                filter-recent now t le (events_of key s)
                ∙ sim.same key t le
                ∙ ap (λ j. filter (recent w t) (log j)) ((eq_iff key k).0 e))
            | inr e ↦ rw e (sim.same k t le)
          ]);
  }

  prune_answer :
      (key : String) (now : Moment) (s : Events) (log : Log)
      → Simulates now s log
      → (prune_unlocked w key now s).1 ≡ filter (recent w now) (log key)
  unfolding prune_unlocked
  prune_answer key now s log sim = sim.same key now (omega arith)

  is_blocked-Simulates :
      (keys : List String) (now : Moment) (s : Events) (log : Log)
      → Simulates now s log
      → Simulates now (is_blocked w keys now s).0 log
        × ((is_blocked w keys now s).1 ≡ is_exhausted w keys now log)
  unfolding is_blocked any
  is_blocked-Simulates [] now s log sim = (sim, refl)
  is_blocked-Simulates (key ∷ keys) now s log sim = elim (Bool-cases (key == "")) [
    | inl e ↦ rw e (is_blocked-Simulates keys now s log sim)
    | inr e ↦
        rw (e, prune_answer key now s log sim)
          (elim (Bool-cases (leb w.max_failures (length (filter (recent w now) (log key))))) [
            | inl full ↦ rw full (prune-Simulates key now s log sim, refl)
            | inr free ↦ rw free (
                is_blocked-Simulates keys now (prune_unlocked w key now s).0 log
                  (prune-Simulates key now s log sim))
          ])
  ]

  append-Simulates :
      (key : String) (now : Moment) (s : Events) (log : Log)
      → Simulates now s log
      → Simulates now
          (insert key ((prune_unlocked w key now s).1 ++ (now ∷ [])) (prune_unlocked w key now s).0)
          (over_log key (log key ++ (now ∷ [])) log)
  append-Simulates key now s log sim =
      let p = prune-Simulates key now s log sim in
      record {
        unique = insert-UniqueKeys key _ (prune_unlocked w key now s).0 p.unique;
        same = λ k t le.
            rw
              (
                lookup-insert key k ((prune_unlocked w key now s).1 ++ (now ∷ []))
                    (prune_unlocked w key now s).0,
                prune_answer key now s log sim,
              )
              (elim (Bool-cases (key == k)) [
                | inl e ↦
                    rw
                      (
                        e,
                        filter-append (recent w t) (filter (recent w now) (log key)) (now ∷ []),
                        filter-append (recent w t) (log key) (now ∷ []),
                        filter-recent now t le (log key),
                      )
                      refl
                | inr e ↦ rw e (p.same k t le)
              ]);
      }

  record_failure-Simulates :
      (keys : List String) (now : Moment) (s : Events) (log : Log)
      → Simulates now s log
      → Simulates now (record_failure w keys now s) (note_failures keys now log)
  unfolding record_failure
  record_failure-Simulates [] now s log sim = sim
  record_failure-Simulates (key ∷ keys) now s log sim = elim (Bool-cases (key == "")) [
    | inl e ↦ rw e (record_failure-Simulates keys now s log sim)
    | inr e ↦ rw e (
        record_failure-Simulates keys now
          (insert key ((prune_unlocked w key now s).1 ++ (now ∷ [])) (prune_unlocked w key now s).0)
          (over_log key (log key ++ (now ∷ [])) log) (append-Simulates key now s log sim))
  ]

  clear-Simulates :
      (keys : List String) (now : Moment) (s : Events) (log : Log)
      → Simulates now s log
      → Simulates now (clear keys s) (forget keys log)
  unfolding clear
  clear-Simulates [] now s log sim = sim
  clear-Simulates (key ∷ keys) now s log sim =
      clear-Simulates keys now (erase key s) (over_log key [] log) (record {
        unique = erase-UniqueKeys key s sim.unique;
        same = λ k t le.
            rw (lookup-erase key k s sim.unique)
              (elim (Bool-cases (key == k)) [ inl e ↦ rw e refl | inr e ↦ rw e (sim.same k t le) ]);
      })

  answers-Simulates :
      (calls : List Call) (now : Moment) (s : Events) (log : Log)
      → Monotonic now calls
      → Simulates now s log
      → answers w calls s ≡ expected_answers w calls log
  answers-Simulates [] now s log m sim = refl
  answers-Simulates (asks keys t ∷ calls) now s log m sim =
      let r = is_blocked-Simulates keys t s log (later-Simulates now t s log m.0 sim) in
      rw r.1 (
        ap (λ l. is_exhausted w keys t log ∷ l)
          (answers-Simulates calls t (is_blocked w keys t s).0 log m.1 r.0))
  answers-Simulates (fails keys t ∷ calls) now s log m sim =
      answers-Simulates calls t (record_failure w keys t s) (note_failures keys t log) m.1
        (record_failure-Simulates keys t s log (later-Simulates now t s log m.0 sim))
  answers-Simulates (clears keys ∷ calls) now s log m sim =
      answers-Simulates calls now (clear keys s) (forget keys log) m
        (clear-Simulates keys now s log sim)

-- Over every sequence of calls of a fresh limiter, in the order of a clock that does not go back,
-- `is_blocked` answers as if no attempt were ever thrown away: exactly when some non-empty key that
-- it is asked about has at least `max_failures` attempts inside the window since it was last cleared.
pub answers-refine-log :
    (w : Window) (calls : List Call)
    → Monotonic 0 calls
    → answers w calls [] ≡ expected_answers w calls (λ key. [])
unfolding lookup
answers-refine-log w calls m =
    answers-Simulates w calls 0 [] (λ key. []) m (record { unique = tt; same = λ key t le. refl })
