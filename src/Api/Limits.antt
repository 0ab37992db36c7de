-- ===== src/Api/Limits.antt =====
-- packages/api/dfip_api/limits.py: how many failed attempts and how long a body the API takes. The
-- clock's reading is an argument, in whole units; the lock makes every method one step. A header that
-- is no number reads as -1, as in the source.
pub mod Attempts
pub mod Body
use dfip_v.Prelude.{
  ℕ, ◌+◌, String, Bool, true, false, not, Option, none, some, List, [], ◌∷◌, ◌++◌, ◌==◌, ◌&&◌,
  string_eq, length, filter, get_or, if◌then◌else◌, ltb, leb,
}
use dfip_v.Prelude.Dates.{Moment}
use dfip_v.Prelude.Dict.{Dict, lookup, insert, erase}
use dfip_v.Prelude.Int.{ℤ, pos, negsuc}

-- `_events`
abbrev pub Events : Type 0
Events = Dict String (List Moment)

-- the arguments of the two constructors; `RateWindowLimiter` stores `max(1, max_attempts)`
pub record Window : Type 0 where
  pub max_failures : ℕ
  pub window_seconds : ℕ

abbrev pub login_window : Window
login_window = record { max_failures = 5; window_seconds = 600 }

abbrev pub publisher_session_window : ℕ → Window
publisher_session_window max_attempts = record {
  max_failures = if leb 1 max_attempts then max_attempts else 1;
  window_seconds = 300;
}

-- `stamp > now - window_seconds`
abbrev pub recent : Window → Moment → Moment → Bool
recent w now stamp = ltb now (stamp + w.window_seconds)

abbrev pub events_of : String → Events → List Moment
events_of key s = get_or (lookup key s) []

abbrev pub store_or_pop : String → List Moment → Events → Events
store_or_pop key [] s = erase key s
store_or_pop key (e ∷ events) s = insert key (e ∷ events) s

unfoldable pub prune_unlocked : Window → String → Moment → Events → Events × List Moment
prune_unlocked w key now s =
    let events = filter (recent w now) (events_of key s) in (store_or_pop key events s, events)

-- the loop of `is_blocked`, which returns at the first key that is blocked
unfoldable pub is_blocked : Window → List String → Moment → Events → Events × Bool
is_blocked w [] now s = (s, false)
is_blocked w (key ∷ keys) now s =
    let pruned = prune_unlocked w key now s in
    let skipped = is_blocked w keys now s in
    let rest = is_blocked w keys now pruned.0 in
    if key == ""
    then skipped
    else if leb w.max_failures (length pruned.1)
    then (pruned.0, true)
    else rest

unfoldable pub record_failure : Window → List String → Moment → Events → Events
record_failure w [] now s = s
record_failure w (key ∷ keys) now s =
    let pruned = prune_unlocked w key now s in
    record_failure w keys now
      (if key == "" then s else insert key (pruned.1 ++ (now ∷ [])) pruned.0)

unfoldable pub clear : List String → Events → Events
clear [] s = s
clear (key ∷ keys) s = clear keys (erase key s)

-- `RateWindowLimiter` with its one key
unfoldable pub is_rate_blocked : Window → String → Moment → Events → Events × Bool
is_rate_blocked w key now s =
    let pruned = prune_unlocked w key now s in
    if key == "" then (s, false) else (pruned.0, leb w.max_failures (length pruned.1))

unfoldable pub record_attempt : Window → String → Moment → Events → Events
record_attempt w key now s =
    let pruned = prune_unlocked w key now s in
    if key == "" then s else insert key (pruned.1 ++ (now ∷ [])) pruned.0

-- What `receive` gives: a disconnect, a part of the body with its `more_body`, or another message
-- with the `more_body` that it may carry.
pub data Message : Type 0 where
  disconnect : Message
  request : List ℕ → Bool → Message
  other : Bool → Message

-- What becomes of the request: the application is called with this body, it is refused with 413, it
-- is dropped, or the middleware still waits for a message.
pub data Outcome : Type 0 where
  passed : List ℕ → Outcome
  too_large dropped waiting : Outcome

-- the inner loop, which reads what is left of a body that is refused
unfoldable pub drain : Bool → List Message → Outcome
drain false messages = too_large
drain true [] = waiting
drain true (disconnect ∷ messages) = dropped
drain true (request chunk more ∷ messages) = drain more messages
drain true (other more ∷ messages) = drain more messages

unfoldable pub read_body : ℕ → List ℕ → List Message → Outcome
unfolding drain
read_body max_bytes body [] = waiting
read_body max_bytes body (disconnect ∷ messages) = dropped
read_body max_bytes body (other more ∷ messages) = read_body max_bytes body messages
read_body max_bytes body (request chunk more ∷ messages) =
    let rest = read_body max_bytes (body ++ chunk) messages in
    if ltb max_bytes (length body + length chunk)
    then drain more messages
    else if more
    then rest
    else passed (body ++ chunk)

-- the parts of an ASGI scope that the middleware reads; an absent `content-length` is `none`
pub record Scope : Type 0 where
  pub kind : String
  pub method : String
  pub path : String
  pub is_multipart : Bool
  pub content_length : Option ℤ

unfoldable pub should_limit_json_body : Scope → Bool
should_limit_json_body c =
    not (c.method == "GET")
    && (not (c.method == "HEAD") && (not (c.method == "OPTIONS") && not (c.path == "/health")))

abbrev pub declares_more : ℕ → Option ℤ → Bool
declares_more max_bytes none = false
declares_more max_bytes (some (pos n)) = ltb max_bytes n
declares_more max_bytes (some (negsuc n)) = false

-- `none`: the application reads the messages itself
unfoldable pub limit_body : ℕ → Scope → List Message → Option Outcome
limit_body max_bytes c messages =
    if not (c.kind == "http")
    then none
    else if not (should_limit_json_body c)
    then none
    else if c.is_multipart
    then none
    else if declares_more max_bytes c.content_length
    then some too_large
    else some (read_body max_bytes [] messages)
