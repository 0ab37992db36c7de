-- ===== src/Tests/Session.antt =====
-- Runs of the publisher lease of packages/api/dfip_api/publisher_session.py.
use dfip_v.Prelude.{
  ◌≡◌, ◌≢◌, ◌⊎◌, refl, String, string_eq, ne_of_beq, false, none, some, List, [], ◌∷◌, arith,
}
use dfip_v.Prelude.Dict.{lookup, insert, map_values}
use dfip_v.Prelude.Int.{pos}
use dfip_v.Prelude.Result.{ok, err}
use dfip_v.Prelude.Text.{strip}
use dfip_v.Api.PublisherSession.{
  PublisherSession, SessionStore, Principal, publisher_session_replaced, register, get_active,
  enforce_publisher_session, register_publisher_session, requires_publisher_session,
}
use dfip_v.Api.PublisherSession.Single.{
  Op, registers, renews, apply, start, next, SingleActive, Reach-SingleActive,
}
use dfip_v.Api.PublisherSession.Refused.{run_ops, run_ops-Dead, register-takeover}
use dfip_v.Api.PublisherSession.Requests.{
  Presents, enforce_publisher_session_lem, register_publisher_session-no_ping_pong,
}

abbrev publisher : Principal
publisher = record {
  subject = "p";
  auth_mode = "session";
  role = "publisher";
  client_id = none;
  platform_admin = false;
  membership_client_ids = none;
  user_id = some "u1";
  token_version = none;
}

-- the first tab's session, from second 0 to second 90
abbrev first_tab : PublisherSession
first_tab = record {
  session_id = "a";
  user_id = "u1";
  created_at = 0;
  last_seen_at = 0;
  expires_at = 90;
  revoked_at = none;
  user_agent = none;
}

abbrev tabs : SessionStore
tabs = ("a", first_tab) ∷ []

-- the first tab tries to renew, and another publisher signs in
abbrev between : List Op
between = renews "a" "u1" (pos 90) 20 ∷ registers "u2" "c" (pos 90) none 25 ∷ []

takeover_runs : get_active "a" 10 (register "u1" "b" (pos 90) none 10 tabs).0 ≡ none
unfolding register get_active lookup insert map_values
takeover_runs = refl

Reach-SingleActive_example : SingleActive (
    apply
      (renews "b" "u1" (pos 90) 12)
      (apply (registers "u1" "b" (pos 90) none 10) (apply (registers "u1" "a" (pos 90) none 0) [])))
Reach-SingleActive_example = Reach-SingleActive _ (
    next (renews "b" "u1" (pos 90) 12) _ (
      next (registers "u1" "b" (pos 90) none 10) _
        (next (registers "u1" "a" (pos 90) none 0) _ start)))

run_ops-Dead_example :
    get_active "a" 200 (run_ops between (register "u1" "b" (pos 90) none 10 tabs).0) ≡ none
run_ops-Dead_example =
    run_ops-Dead 10 200 "a" between (register "u1" "b" (pos 90) none 10 tabs).0 (omega arith)
      (omega arith, ((omega arith, ne_of_beq string_eq "a" "c" refl), tt)) takeover_runs

register-takeover_example :
    let (s', session) = register "u1" "b" (pos 90) none 10 tabs in
    (get_active "b" 50 s' ≡ some session)
    × ((k : String) (a : PublisherSession)
        → k ≢ "b"
        → lookup k tabs ≡ some a
        → a.user_id ≡ "u1"
        → get_active k 50 s' ≡ none)
unfolding register
register-takeover_example = register-takeover "u1" "b" (pos 90) none 10 50 tabs

enforce_publisher_session_lem_example :
    (Presents tabs publisher (some " a ") 10
      × (enforce_publisher_session (some tabs) publisher (some " a ") 10 ≡ ok tt))
    ⊎ ((Presents tabs publisher (some " a ") 10 → ⊥)
        × (enforce_publisher_session (some tabs) publisher (some " a ") 10
            ≡ err publisher_session_replaced))
unfolding requires_publisher_session strip
enforce_publisher_session_lem_example =
    enforce_publisher_session_lem tabs publisher (some " a ") 10 refl

register_publisher_session-no_ping_pong_example :
    let s' =
      run_ops between (register_publisher_session (pos 90) publisher none none "b" 10 tabs).0 in
    (enforce_publisher_session (some s') publisher (some " a ") 60 ≡ err publisher_session_replaced)
    × (register_publisher_session (pos 90) publisher (some " a ") none "d" 60 s'
        ≡ (s', err publisher_session_replaced))
unfolding requires_publisher_session strip lookup
register_publisher_session-no_ping_pong_example =
    register_publisher_session-no_ping_pong (pos 90) publisher " a " none "b" "d" 10 60 tabs between
      first_tab refl refl (ne_of_beq string_eq "a" "" refl) (ne_of_beq string_eq "a" "b" refl) refl
      (omega arith) (omega arith, ((omega arith, ne_of_beq string_eq "a" "c" refl), tt))
