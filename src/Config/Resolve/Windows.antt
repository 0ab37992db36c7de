-- ===== src/Config/Resolve/Windows.antt =====
-- `select_version_for_day` against the half-open windows.
use mathlib.Core.Option
use dfip_v.Config.RateCards.{Window, rate_card_versions}
use dfip_v.Config.Resolve.{select_version_for_day}
use dfip_v.Prelude.{
  ◌≡◌, refl, Bool, true, ◌&&◌, Option, none, some, List, [], ◌∷◌, arith, find?, filter, length,
  if◌then◌else◌,
}
use dfip_v.Prelude.Dates.{Date, date_ltb, date_leb}

-- start <= day < end, where a missing end of the window is no bound
abbrev pub after_start : Option Date → Date → Bool
after_start none day = true
after_start (some start) day = date_leb start day

abbrev pub before_end : Option Date → Date → Bool
before_end none day = true
before_end (some end) day = date_ltb day end

abbrev pub contains_day : Date → Window → Bool
contains_day day (label, start, end) = after_start start day && before_end end day

-- The selected version is the first whose window holds the day, with the first day of a window
-- included and its end excluded; there is none only if no window holds the day.
pub select_version_for_day-eq-find :
    (versions : List Window) (day : Date)
    → select_version_for_day versions day
      ≡ Option.map (λ w. w.0) (find? (contains_day day) versions)
unfolding select_version_for_day find? date_leb
select_version_for_day-eq-find [] day = refl
select_version_for_day-eq-find ((label, none, none) ∷ versions) day = refl
select_version_for_day-eq-find ((label, some s, none) ∷ versions) day =
    ground (arith, select_version_for_day-eq-find versions day)
select_version_for_day-eq-find ((label, none, some e) ∷ versions) day =
    ground (arith, select_version_for_day-eq-find versions day)
select_version_for_day-eq-find ((label, some s, some e) ∷ versions) day =
    ground (arith, select_version_for_day-eq-find versions day)

abbrev pub first_day : Date
first_day = record { year = 2025; month = 4; day = 1 }

abbrev pub change_day : Date
change_day = record { year = 2025; month = 8; day = 1 }

-- The packaged rate cards leave no gap and no overlap: no card is selected before 2025-04-01, rate-v1
-- until the day before 2025-08-01, and rate-v2 from that day on without end; and of the windows, not only
-- the selected one but exactly one in all holds a day from 2025-04-01 on, and none an earlier day.
pub rate_card_of_day :
    (day : Date)
    → (select_version_for_day rate_card_versions day ≡ (
        if date_ltb day first_day
        then none
        else if date_ltb day change_day
        then some "rate-v1"
        else some "rate-v2"))
      × (length (filter (contains_day day) rate_card_versions)
          ≡ (if date_ltb day first_day then 0 else 1))
unfolding select_version_for_day rate_card_versions date_leb date_ltb filter
rate_card_of_day day = (ground arith, ground arith)
