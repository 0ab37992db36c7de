-- ===== src/Api/PublisherSession.antt =====
-- The publisher lease: `InMemoryPublisherSessionStore` and its callers in
-- packages/api/dfip_api/publisher_session.py, over the row of
-- packages/db/dfip_db/publisher_session.py. The store's lock makes every method one step. The clock's
-- reading and the random token of a new session are arguments of the operation that takes them.
pub mod Single
pub mod Refused
pub mod Requests
use dfip_v.Prelude.{
  ℕ, List, String, Bool, true, false, not, Option, none, some, length, filter, if◌then◌else◌, ◌+◌,
  ◌&&◌, ◌||◌, ◌==◌, string_eq, option_eq, leb, ltb, is_some,
}
use dfip_v.Prelude.Dates.{Moment}
use dfip_v.Prelude.Int.{ℤ, pos, pos_part}
use dfip_v.Prelude.Dict.{Dict, lookup, insert, values, map_values}
use dfip_v.Prelude.Text.{strip, truthy}
use dfip_v.Prelude.Result.{Result, ok, err}

pub record PublisherSession : Type 0 where
  pub session_id : String
  pub user_id : String
  pub created_at : Moment
  pub last_seen_at : Moment
  pub expires_at : Moment
  pub revoked_at : Option Moment
  pub user_agent : Option String

abbrev pub is_active_at : PublisherSession → Moment → Bool
is_active_at s moment = not (is_some s.revoked_at) && ltb moment s.expires_at

-- `_by_id`
abbrev pub SessionStore : Type 0
SessionStore = Dict String PublisherSession

-- `max(1, int(lease_seconds))`
abbrev pub lease_seconds : ℤ → ℕ
lease_seconds configured = if leb 1 (pos_part configured) then pos_part configured else 1

abbrev pub is_claimable : String → PublisherSession → Bool
is_claimable user_id s = s.user_id == user_id && not (is_some s.revoked_at)

abbrev pub with_revoked : Moment → PublisherSession → PublisherSession
with_revoked moment s = record s { revoked_at = some moment }

-- the loop of `register` and of `revoke_active_for_user` over the claimable rows
abbrev pub revoked : String → Moment → PublisherSession → PublisherSession
revoked user_id moment s = if is_claimable user_id s then with_revoked moment s else s

abbrev pub new_session : String → String → ℤ → Option String → Moment → PublisherSession
new_session user_id session_id seconds user_agent now = record {
  session_id = session_id;
  user_id = user_id;
  created_at = now;
  last_seen_at = now;
  expires_at = now + lease_seconds seconds;
  revoked_at = none;
  user_agent = user_agent;
}

unfoldable pub register :
    String → String → ℤ → Option String → Moment → SessionStore → SessionStore × PublisherSession
register user_id session_id seconds user_agent now s =
    let session = new_session user_id session_id seconds user_agent now in
    (insert session_id session (map_values (revoked user_id now) s), session)

abbrev pub if_active : Moment → Option PublisherSession → Option PublisherSession
if_active now none = none
if_active now (some s) = if is_active_at s now then some s else none

unfoldable pub get_active : String → Moment → SessionStore → Option PublisherSession
get_active session_id now s = if_active now (lookup session_id s)

abbrev pub renewed : ℤ → Moment → PublisherSession → PublisherSession
renewed seconds now s = record s {
  last_seen_at = now;
  expires_at = now + lease_seconds seconds;
  revoked_at = none;
}

-- `renew` once the row is known
unfoldable pub renew_over :
    String
    → String
    → ℤ
    → Moment
    → SessionStore
    → Option PublisherSession
    → SessionStore × Option PublisherSession
renew_over session_id user_id seconds now s none = (s, none)
renew_over session_id user_id seconds now s (some session) =
    if not (session.user_id == user_id)
    then (s, none)
    else if not (is_active_at session now)
    then (s, none)
    else (insert session_id (renewed seconds now session) s, some (renewed seconds now session))

unfoldable pub renew :
    String → String → ℤ → Moment → SessionStore → SessionStore × Option PublisherSession
renew session_id user_id seconds now s =
    renew_over session_id user_id seconds now s (lookup session_id s)

unfoldable pub revoke_active_for_user : String → Moment → SessionStore → SessionStore × ℕ
revoke_active_for_user user_id now s =
    (map_values (revoked user_id now) s, length (filter (is_claimable user_id) (values s)))

-- dfip_api/auth.py
pub record Principal : Type 0 where
  pub subject : String
  pub auth_mode : String
  pub role : String
  pub client_id : Option String
  pub platform_admin : Bool
  pub membership_client_ids : Option (List String)
  pub user_id : Option String
  pub token_version : Option ℕ

abbrev pub can_inspect : String → Bool
can_inspect role = role == "admin" || role == "publisher"

unfoldable pub requires_publisher_session : Principal → Bool
requires_publisher_session p = can_inspect p.role && not (strip (truthy p.user_id "") == "")

pub data SessionError : Type 0 where
  authorization persistence_unavailable publisher_session_replaced : SessionError

abbrev pub owned_by : Option String → Option PublisherSession → Option PublisherSession
owned_by user_id none = none
owned_by user_id (some s) = if some s.user_id == user_id then some s else none

unfoldable pub active_publisher_session :
    Option SessionStore → Principal → Option String → Moment → Option PublisherSession
active_publisher_session none p session_id now = none
active_publisher_session (some s) p session_id now =
    let candidate = strip (truthy session_id "") in
    if not (requires_publisher_session p)
    then none
    else if candidate == ""
    then none
    else owned_by p.user_id (get_active candidate now s)

unfoldable pub enforce_publisher_session :
    Option SessionStore → Principal → Option String → Moment → Result SessionError Unit
enforce_publisher_session none p session_id now =
    if requires_publisher_session p then err persistence_unavailable else ok tt
enforce_publisher_session (some s) p session_id now =
    if not (requires_publisher_session p)
    then ok tt
    else if is_some (active_publisher_session (some s) p session_id now)
    then ok tt
    else err publisher_session_replaced

-- `str(principal.user_id)`
abbrev pub str_of_user : Option String → String
str_of_user none = "None"
str_of_user (some user_id) = user_id

abbrev pub or_replaced : Option PublisherSession → Result SessionError PublisherSession
or_replaced none = err publisher_session_replaced
or_replaced (some s) = ok s

-- `user_agent` is the text after `_safe_user_agent` and `fresh` the token of `new_session_id`. The store
-- is there: without one `_require_store` raises.
unfoldable pub register_publisher_session :
    ℤ
    → Principal
    → Option String
    → Option String
    → String
    → Moment
    → SessionStore
    → SessionStore × Result SessionError PublisherSession
register_publisher_session configured p presented_session_id user_agent fresh now s =
    let presented = strip (truthy presented_session_id "") in
    let user_id = str_of_user p.user_id in
    let seconds = pos (lease_seconds configured) in
    if not (requires_publisher_session p)
    then (s, err authorization)
    else if not (presented == "")
    then (if is_some (owned_by (some user_id) (get_active presented now s))
        then (let (s', session) = renew presented user_id seconds now s in
            (s', or_replaced session))
        else (s, err publisher_session_replaced))
    else (let (s', session) = register user_id fresh seconds user_agent now s in (s', ok session))

unfoldable pub renew_publisher_session :
    ℤ
    → Principal
    → Option String
    → Moment
    → SessionStore
    → SessionStore × Result SessionError PublisherSession
renew_publisher_session configured p session_id now s =
    let candidate = strip (truthy session_id "") in
    if not (requires_publisher_session p)
    then (s, err authorization)
    else if candidate == ""
    then (s, err publisher_session_replaced)
    else (let (s', session) =
          renew candidate (str_of_user p.user_id) (pos (lease_seconds configured)) now s in
        (s', or_replaced session))

unfoldable pub release_publisher_sessions : Option String → Moment → SessionStore → SessionStore × ℕ
release_publisher_sessions none now s = (s, 0)
release_publisher_sessions (some user_id) now s =
    if strip user_id == "" then (s, 0) else revoke_active_for_user user_id now s
