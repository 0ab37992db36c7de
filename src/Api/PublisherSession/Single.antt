-- ===== src/Api/PublisherSession/Single.antt =====
-- A user holds one publisher session at a time, whatever requests come in.
use dfip_v.Prelude.{
  [], ◌≡◌, refl, sym, ap, ◌∙◌, String, Bool-cases, Option-cases, inl, inr, true, false, Option,
  none, some, ◌==◌, string_eq, arith, eq_iff,
}
use mathlib.Core.Option.{some-injective}
use dfip_v.Prelude.Dates.{Moment}
use dfip_v.Prelude.Int.{ℤ}
use dfip_v.Prelude.Dict.{lookup, insert, map_values, lookup-insert_cases, lookup-map_values}
use dfip_v.Api.PublisherSession.{
  PublisherSession, SessionStore, register, renew, renew_over, revoke_active_for_user, revoked,
  is_active_at, new_session, renewed,
}

-- one method call that may change the store, with the reading of the clock
pub data Op : Type 0 where
  registers : String → String → ℤ → Option String → Moment → Op
  renews : String → String → ℤ → Moment → Op
  revokes : String → Moment → Op

abbrev pub apply : Op → SessionStore → SessionStore
apply (registers user id seconds agent now) s = (register user id seconds agent now s).0
apply (renews id user seconds now) s = (renew id user seconds now s).0
apply (revokes user now) s = (revoke_active_for_user user now s).0

-- the stores that the methods can lead to, from the empty one
pub data Reach : SessionStore → Type 0 where
  start : Reach []
  next : (op : Op) (s : SessionStore) → Reach s → Reach (apply op s)

-- No user has unrevoked rows under two ids.
abbrev pub SingleActive : SessionStore → Type 0
SingleActive s =
    (j k : String) (a b : PublisherSession)
    → lookup j s ≡ some a
    → lookup k s ≡ some b
    → a.revoked_at ≡ none
    → b.revoked_at ≡ none
    → a.user_id ≡ b.user_id
    → j ≡ k

revoked-unrevoked :
    (user : String) (now : Moment) (b : PublisherSession)
    → (revoked user now b).revoked_at ≡ none
    → (revoked user now b ≡ b) × (b.revoked_at ≡ none) × ((b.user_id == user) ≡ false)
revoked-unrevoked user now b h = elim (Bool-cases (b.user_id == user)) [
  | inl e ↦ elim (Option-cases b.revoked_at) [
    | inl o ↦ let h' = rw (e, o) at h in absurd cc
    | inr (m, o) ↦ let h' = rw (e, o) at h in absurd cc
  ]
  | inr e ↦ let h' = rw e at h in (rw e refl, h', e)
]

-- A row that is unrevoked after the revoking loop stood so before and is another user's.
pub map_values-unrevoked :
    (user : String) (now : Moment) (s : SessionStore) (k : String) (a : PublisherSession)
    → lookup k (map_values (revoked user now) s) ≡ some a
    → a.revoked_at ≡ none
    → (lookup k s ≡ some a) × ((a.user_id == user) ≡ false)
map_values-unrevoked user now s k a l unrevoked = elim (Option-cases (lookup k s)) [
  | inl e ↦ let l' = rw (lookup-map_values (revoked user now) k s, e) at l in absurd cc
  | inr (b, e) ↦
      let l' : some (revoked user now b) ≡ some a =
        rw (lookup-map_values (revoked user now) k s, e) at l in
      let same : revoked user now b ≡ a = some-injective _ _ l' in
      let r = revoked-unrevoked user now b (ap (λ x. x.revoked_at) same ∙ unrevoked) in
      let b=a : b ≡ a = sym r.0 ∙ same in
      (e ∙ ap some b=a, ap (λ x. x.user_id == user) (sym b=a) ∙ r.2)
]

map_values-SingleActive :
    (user : String) (now : Moment) (s : SessionStore)
    → SingleActive s
    → SingleActive (map_values (revoked user now) s)
map_values-SingleActive user now s h j k a b l m p q u =
    h j k a b (map_values-unrevoked user now s j a l p).0
      (map_values-unrevoked user now s k b m q).0 p q u

-- A row joins if its user has no other unrevoked one.
insert-SingleActive :
    (id : String) (x : PublisherSession) (s : SessionStore)
    → SingleActive s
    → ((k : String) (a : PublisherSession)
        → lookup k s ≡ some a
        → a.revoked_at ≡ none
        → a.user_id ≡ x.user_id
        → k ≡ id)
    → SingleActive (insert id x s)
insert-SingleActive id x s h free j k a b l m p q u = elim (lookup-insert_cases id x s j a l) [
  | inl (e, f) ↦ elim (lookup-insert_cases id x s k b m) [
    | inl (e', f') ↦ e ∙ sym e'
    | inr old ↦ e ∙ sym (free k b old q (sym u ∙ ap (λ y. y.user_id) f))
  ]
  | inr old ↦ elim (lookup-insert_cases id x s k b m) [
    | inl (e, f) ↦ free j a old p (u ∙ ap (λ y. y.user_id) f) ∙ sym e
    | inr old' ↦ h j k a b old old' p q u
  ]
]

pub unrevoked-of_active :
    (x : PublisherSession) (now : Moment) → is_active_at x now ≡ true → x.revoked_at ≡ none
unrevoked-of_active x now h = ground arith

renew_over-SingleActive :
    (id user : String) (seconds : ℤ) (now : Moment) (s : SessionStore) (o : Option PublisherSession)
    → lookup id s ≡ o
    → SingleActive s
    → SingleActive (renew_over id user seconds now s o).0
unfolding renew_over
renew_over-SingleActive id user seconds now s none e h = h
renew_over-SingleActive id user seconds now s (some x) e h = elim (Bool-cases (x.user_id == user)) [
  | inr other ↦ rw other h
  | inl mine ↦ elim (Bool-cases (is_active_at x now)) [
    | inr dead ↦ rw (mine, dead) h
    | inl live ↦
        rw (mine, live)
          (insert-SingleActive id (renewed seconds now x) s h
            (λ k a l p u. h k id a x l e p (unrevoked-of_active x now live) u))
  ]
]

apply-SingleActive : (op : Op) (s : SessionStore) → SingleActive s → SingleActive (apply op s)
unfolding register renew revoke_active_for_user
apply-SingleActive (registers user id seconds agent now) s h =
    insert-SingleActive id (new_session user id seconds agent now) (map_values (revoked user now) s)
      (map_values-SingleActive user now s h)
      (λ k a l p u.
        absurd
          (ground (arith, (map_values-unrevoked user now s k a l p).1, eq_iff a.user_id user, u)))
apply-SingleActive (renews id user seconds now) s h =
    renew_over-SingleActive id user seconds now s (lookup id s) refl h
apply-SingleActive (revokes user now) s h = map_values-SingleActive user now s h

-- In every store that registrations, renewals and revocations in any order and at any times lead to
-- from the empty one, no user has unrevoked sessions under two ids.
pub Reach-SingleActive : (s : SessionStore) → Reach s → SingleActive s
unfolding lookup
Reach-SingleActive _ start = λ j k a b l m p q u. absurd cc
Reach-SingleActive _ (next op s r) = apply-SingleActive op s (Reach-SingleActive s r)
