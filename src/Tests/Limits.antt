-- ===== src/Tests/Limits.antt =====
-- Runs of the limits of packages/api/dfip_api/limits.py.
use dfip_v.Prelude.{◌≡◌, refl, true, false, [], ◌∷◌, List, if◌then◌else◌, length, leb, arith}
use dfip_v.Api.Limits.{
  login_window, is_blocked, record_failure, prune_unlocked, clear, read_body, passed, too_large,
}
use dfip_v.Prelude.Dict.{lookup, insert, erase}
use dfip_v.Prelude.{filter}
use dfip_v.Api.Limits.Attempts.{
  Call, asks, fails, clears, answers, expected_answers, answers-refine-log,
}
use dfip_v.Api.Limits.Body.{body_stream, joined, read_body_whole}

-- five failed logins, a question while they count and one when the first two are too old, and a login
-- that succeeds in between
abbrev logins : List Call
logins =
    fails ("ip" ∷ "" ∷ []) 10
    ∷ fails ("ip" ∷ "user" ∷ []) 20
    ∷ fails ("ip" ∷ []) 500
    ∷ fails ("ip" ∷ []) 510
    ∷ fails ("ip" ∷ []) 520
    ∷ asks ("user" ∷ "ip" ∷ []) 600
    ∷ clears ("user" ∷ [])
    ∷ asks ("user" ∷ []) 605
    ∷ asks ("ip" ∷ []) 620
    ∷ []

blocks_login : answers login_window logins [] ≡ true ∷ false ∷ false ∷ []
unfolding is_blocked record_failure prune_unlocked clear lookup insert erase filter
blocks_login = refl

answers-refine-log_example :
    answers login_window logins [] ≡ expected_answers login_window logins (λ key. [])
answers-refine-log_example = answers-refine-log login_window logins (
  omega arith,
  (
    omega arith,
    (omega arith, (omega arith, (omega arith, (omega arith, (omega arith, (omega arith, tt)))))),
  ),
)

read_body_whole_example :
    read_body 4 [] (body_stream ((1 ∷ 2 ∷ []) ∷ (3 ∷ []) ∷ []) (4 ∷ 5 ∷ [])) ≡ (
      if leb (length (joined ((1 ∷ 2 ∷ []) ∷ (3 ∷ []) ∷ []) (4 ∷ 5 ∷ []))) 4
      then passed (joined ((1 ∷ 2 ∷ []) ∷ (3 ∷ []) ∷ []) (4 ∷ 5 ∷ []))
      else too_large)
read_body_whole_example = read_body_whole 4 ((1 ∷ 2 ∷ []) ∷ (3 ∷ []) ∷ []) (4 ∷ 5 ∷ [])
