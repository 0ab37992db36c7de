-- ===== src/Api/PublisherSession/Refused.antt =====
-- A session that another one replaced, or whose lease ran out, is refused from then on.
use dfip_v.Prelude.{
  List, [], ◌∷◌, ◌≡◌, ◌≢◌, refl, sym, ap, ◌∙◌, ◌≤◌, String, Bool-cases, Option-cases, inl, inr,
  true, Option, none, some, ◌==◌, string_eq, if◌then◌else◌, arith, eq_iff, ltb,
}
use dfip_v.Prelude.Dates.{Moment}
use dfip_v.Prelude.Int.{ℤ}
use dfip_v.Prelude.Dict.{
  lookup, insert, map_values, lookup-insert_self, lookup-insert_ne, lookup-map_values,
}
use dfip_v.Api.PublisherSession.{
  PublisherSession, SessionStore, register, renew, renew_over, revoke_active_for_user, revoked,
  is_active_at, new_session, renewed, get_active,
}
use dfip_v.Api.PublisherSession.Single.{Op, registers, renews, revokes, apply}

-- At `now` the id names no active session: it is unknown, revoked or expired.
abbrev pub Dead : Moment → String → SessionStore → Type 0
Dead now id s = get_active id now s ≡ none

-- The operation happens at `now` or later and does not draw the token `id` for a new session.
abbrev pub Later : Moment → String → Op → Type 0
Later now id (registers user k seconds agent t) = (now ≤ t) × (id ≢ k)
Later now id (renews k user seconds t) = now ≤ t
Later now id (revokes user t) = now ≤ t

abbrev pub run_ops : List Op → SessionStore → SessionStore
run_ops [] s = s
run_ops (op ∷ ops) s = run_ops ops (apply op s)

abbrev pub AllLater : Moment → String → List Op → Type 0
AllLater now id [] = Unit
AllLater now id (op ∷ ops) = Later now id op × AllLater now id ops

-- Time does not bring a session back.
pub Dead-later :
    (now t : Moment) (id : String) (s : SessionStore) → now ≤ t → Dead now id s → Dead t id s
unfolding get_active
Dead-later now t id s le h = elim (Option-cases (lookup id s)) [
  | inl e ↦ rw e refl
  | inr (x, e) ↦ let h' = rw e at h in rw e (ground arith)
]

map_values-Dead :
    (now t : Moment) (user id : String) (s : SessionStore)
    → Dead now id s
    → Dead now id (map_values (revoked user t) s)
unfolding get_active
map_values-Dead now t user id s h = elim (Option-cases (lookup id s)) [
  | inl e ↦ rw (lookup-map_values (revoked user t) id s, e) refl
  | inr (x, e) ↦
      let h' = rw e at h in rw (lookup-map_values (revoked user t) id s, e) (ground arith)
]

insert-Dead :
    (now : Moment) (id k : String) (x : PublisherSession) (s : SessionStore)
    → id ≢ k
    → Dead now id s
    → Dead now id (insert k x s)
unfolding get_active
insert-Dead now id k x s ne h = rw (lookup-insert_ne k x s id ne) h

live_not_dead :
    (t : Moment) (k : String) (x : PublisherSession) (s : SessionStore)
    → lookup k s ≡ some x
    → is_active_at x t ≡ true
    → get_active k t s ≡ none
    → ⊥
unfolding get_active
live_not_dead t k x s e live h = let h' = rw (e, live) at h in absurd cc

renew_over-Dead :
    (now t : Moment) (id k user : String) (seconds : ℤ) (s : SessionStore)
    (o : Option PublisherSession)
    → lookup k s ≡ o
    → now ≤ t
    → Dead now id s
    → Dead now id (renew_over k user seconds t s o).0
unfolding renew_over
renew_over-Dead now t id k user seconds s none e le h = h
renew_over-Dead now t id k user seconds s (some x) e le h = elim (Bool-cases (x.user_id == user)) [
  | inr other ↦ rw other h
  | inl mine ↦ elim (Bool-cases (is_active_at x t)) [
    | inr dead ↦ rw (mine, dead) h
    | inl live ↦
        rw (mine, live)
          (insert-Dead now id k (renewed seconds t x) s
            (λ same. absurd (
              live_not_dead t k x s e live
                (ap (λ y. get_active y t s) (sym same) ∙ Dead-later now t id s le h)))
            h)
  ]
]

apply-Dead :
    (now : Moment) (id : String) (op : Op) (s : SessionStore)
    → Later now id op
    → Dead now id s
    → Dead now id (apply op s)
unfolding register renew revoke_active_for_user
apply-Dead now id (registers user k seconds agent t) s later h =
    insert-Dead now id k (new_session user k seconds agent t) (map_values (revoked user t) s)
      later.1 (map_values-Dead now t user id s h)
apply-Dead now id (renews k user seconds t) s later h =
    renew_over-Dead now t id k user seconds s (lookup k s) refl later h
apply-Dead now id (revokes user t) s later h = map_values-Dead now t user id s h

-- An id that names no active session at one moment names none at any later one, whatever
-- registrations, renewals and revocations come in between, as long as none of them happens before
-- that moment and no new session draws the same token.
pub run_ops-Dead :
    (now t : Moment) (id : String) (ops : List Op) (s : SessionStore)
    → now ≤ t
    → AllLater now id ops
    → get_active id now s ≡ none
    → get_active id t (run_ops ops s) ≡ none
run_ops-Dead now t id [] s le later h = Dead-later now t id s le h
run_ops-Dead now t id (op ∷ ops) s le later h =
    run_ops-Dead now t id ops (apply op s) le later.1 (apply-Dead now id op s later.0 h)

-- A registration takes the lease over: the new id is active until its own lease runs out, and every
-- other id that was this user's is refused from that moment on.
pub register-takeover :
    (user id : String) (seconds : ℤ) (agent : Option String) (now t : Moment) (s : SessionStore)
    → let (s', session) = register user id seconds agent now s in
      (get_active id t s' ≡ (if ltb t session.expires_at then some session else none))
      × ((k : String) (a : PublisherSession)
          → k ≢ id
          → lookup k s ≡ some a
          → a.user_id ≡ user
          → get_active k t s' ≡ none)
unfolding register get_active
register-takeover user id seconds agent now t s = (
  rw
      (lookup-insert_self id (new_session user id seconds agent now)
        (map_values (revoked user now) s))
      refl,
  λ k a ne l u.
      rw
        (
          lookup-insert_ne id (new_session user id seconds agent now)
              (map_values (revoked user now) s) k ne,
          lookup-map_values (revoked user now) k s,
          l,
        )
        (ground (arith, eq_iff a.user_id user, u)),
)
