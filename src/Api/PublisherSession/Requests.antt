-- ===== src/Api/PublisherSession/Requests.antt =====
-- What a publisher's requests are answered, by the session that they present.
use dfip_v.Prelude.{
  List, ◌≡◌, ◌≢◌, ◌⊎◌, refl, sym, ap, ◌∙◌, ◌≤◌, String, Bool-cases, Option-cases, inl, inr, true,
  false, Option, none, some, ◌==◌, string_eq, option_eq, is_some, arith, eq_iff,
}
use dfip_v.Prelude.Dates.{Moment}
use dfip_v.Prelude.Int.{ℤ, pos}
use dfip_v.Prelude.Dict.{lookup}
use dfip_v.Prelude.Text.{strip, truthy, strip_empty}
use dfip_v.Prelude.Result.{ok, err}
use dfip_v.Api.PublisherSession.{
  PublisherSession, SessionStore, Principal, publisher_session_replaced, register, get_active,
  is_active_at, lease_seconds, requires_publisher_session, active_publisher_session,
  enforce_publisher_session, register_publisher_session,
}
use dfip_v.Api.PublisherSession.Single.{Op}
use dfip_v.Api.PublisherSession.Refused.{AllLater, run_ops, run_ops-Dead, register-takeover}

-- The session that the presented id names, live and the caller's own.
pub record Presents (s : SessionStore) (p : Principal) (session_id : Option String) (now : Moment)
    : Type 0 where
  pub session : PublisherSession
  pub named : strip (truthy session_id "") ≢ ""
  pub stored : lookup (strip (truthy session_id "")) s ≡ some session
  pub live : is_active_at session now ≡ true
  pub own : p.user_id ≡ some session.user_id

active-none :
    (s : SessionStore) (p : Principal) (session_id : Option String) (now : Moment)
    → requires_publisher_session p ≡ true
    → get_active (strip (truthy session_id "")) now s ≡ none
    → active_publisher_session (some s) p session_id now ≡ none
unfolding active_publisher_session
active-none s p session_id now r dead = rw (r, dead) (ground arith)

Presents-active :
    (s : SessionStore) (p : Principal) (session_id : Option String) (now : Moment)
    → requires_publisher_session p ≡ true
    → (is_some (active_publisher_session (some s) p session_id now) ≡ true)
    → Presents s p session_id now
unfolding active_publisher_session get_active
Presents-active s p session_id now r h = elim (Bool-cases (strip (truthy session_id "") == "")) [
  | inl e ↦ let h' = rw (r, e) at h in absurd cc
  | inr e ↦ elim (Option-cases (lookup (strip (truthy session_id "")) s)) [
    | inl l ↦ let h' = rw (r, e, l) at h in absurd cc
    | inr (x, l) ↦ elim (Bool-cases (is_active_at x now)) [
      | inr d ↦ let h' = rw (r, e, l, d) at h in absurd cc
      | inl d ↦ elim (Bool-cases (some x.user_id == p.user_id)) [
        | inr o ↦ let h' = rw (r, e, l, d, o) at h in absurd cc
        | inl o ↦ record {
          session = x;
          named = ground (arith, eq_iff (strip (truthy session_id "")) "", e);
          stored = l;
          live = d;
          own = sym ((option_eq.equal_iff (some x.user_id) p.user_id).0 o);
        }
      ]
    ]
  ]
]

active-Presents :
    (s : SessionStore) (p : Principal) (session_id : Option String) (now : Moment)
    → requires_publisher_session p ≡ true
    → (h : Presents s p session_id now)
    → active_publisher_session (some s) p session_id now ≡ some h.session
unfolding active_publisher_session get_active
active-Presents s p session_id now r h =
    let named : (strip (truthy session_id "") == "") ≡ false =
      ground (arith, eq_iff (strip (truthy session_id "")) "", h.named) in
    let own : (some h.session.user_id == p.user_id) ≡ true =
      (option_eq.equal_iff (some h.session.user_id) p.user_id).1 (sym h.own) in
    rw (r, named, h.stored, h.live, own) refl

-- A publisher's request passes exactly if the id that it presents names a session that is stored, not
-- revoked, not expired and the caller's own; every other id, the empty one included, gets the same
-- refusal.
pub enforce_publisher_session_lem :
    (s : SessionStore) (p : Principal) (session_id : Option String) (now : Moment)
    → requires_publisher_session p ≡ true
    → (Presents s p session_id now × (enforce_publisher_session (some s) p session_id now ≡ ok tt))
      ⊎ ((Presents s p session_id now → ⊥)
          × (enforce_publisher_session (some s) p session_id now ≡ err publisher_session_replaced))
unfolding enforce_publisher_session
enforce_publisher_session_lem s p session_id now r =
    elim (Bool-cases (is_some (active_publisher_session (some s) p session_id now))) [
      | inl e ↦ inl (Presents-active s p session_id now r e, rw (r, e) refl)
      | inr e ↦ inr (
        λ h. let e' = rw (active-Presents s p session_id now r h) at e in absurd cc,
        rw (r, e) refl,
      )
    ]

-- A presented id that names no active session neither takes the session back nor changes a row.
pub register_publisher_session-stale :
    (configured : ℤ) (p : Principal) (presented : String) (agent : Option String) (fresh : String)
    (now : Moment) (s : SessionStore)
    → requires_publisher_session p ≡ true
    → strip (truthy (some presented) "") ≢ ""
    → get_active (strip (truthy (some presented) "")) now s ≡ none
    → register_publisher_session configured p (some presented) agent fresh now s
      ≡ (s, err publisher_session_replaced)
unfolding register_publisher_session
register_publisher_session-stale configured p presented agent fresh now s r named dead =
    let e : (strip (truthy (some presented) "") == "") ≡ false =
      ground (arith, eq_iff (strip (truthy (some presented) "")) "", named) in
    rw (r, e, dead) refl

-- No ping-pong. Once a publisher has opened a new session, an id of an earlier session of the same
-- user is refused for good: whatever calls follow, presenting it neither passes the check nor
-- registers anything, at any later time. Asked of the ids: the new token differs from it, and so do
-- the tokens that later registrations draw.
pub register_publisher_session-no_ping_pong :
    (configured : ℤ) (p : Principal) (presented : String) (agent : Option String)
    (fresh again : String) (now t : Moment) (s : SessionStore) (ops : List Op)
    (old : PublisherSession)
    → requires_publisher_session p ≡ true
    → p.user_id ≡ some old.user_id
    → strip (truthy (some presented) "") ≢ ""
    → strip (truthy (some presented) "") ≢ fresh
    → lookup (strip (truthy (some presented) "")) s ≡ some old
    → now ≤ t
    → AllLater now (strip (truthy (some presented) "")) ops
    → let s' = run_ops ops (register_publisher_session configured p none agent fresh now s).0 in
      (enforce_publisher_session (some s') p (some presented) t ≡ err publisher_session_replaced)
      × (register_publisher_session configured p (some presented) agent again t s'
          ≡ (s', err publisher_session_replaced))
register_publisher_session-no_ping_pong configured p presented agent fresh again now t s ops old r
      mine named ne l le later =
    let id = strip (truthy (some presented) "") in
    let s1 = (register_publisher_session configured p none agent fresh now s).0 in
    let opened : s1 ≡ (register old.user_id fresh (pos (lease_seconds configured)) agent now s).0 =
      unfold register_publisher_session in rw (r, mine, strip_empty) refl in
    let dead : get_active id now s1 ≡ none =
      ap (get_active id now) opened
      ∙ (register-takeover old.user_id fresh (pos (lease_seconds configured)) agent now now s).1 id
          old ne l refl in
    let gone : get_active id t (run_ops ops s1) ≡ none =
      run_ops-Dead now t id ops s1 le later dead in
    (
      unfold enforce_publisher_session in
          rw (r, active-none (run_ops ops s1) p (some presented) t r gone) refl,
      register_publisher_session-stale configured p presented agent again t (run_ops ops s1) r named
          gone,
    )
