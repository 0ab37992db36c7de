-- ===== src/Prelude/Dates.antt =====
-- `datetime.date` and `datetime.datetime`. A moment that the program only orders and adds seconds
-- to is a number of seconds; a date and time whose parts it reads is a record.
use Prim.Native.Nat.{ℕ}
use mathlib.Core.Path.{◌≡◌}
use mathlib.Core.Logic.{◌↔◌}
use mathlib.Core.Bool.{Bool, true, false, not, ◌&&◌}
use native.Mathlib.Omega.{arith}
use dfip_v.Prelude.Tests.{if◌then◌else◌, ltb, nat_beq}
use dfip_v.Prelude.Equality.{Comparable}

pub record Date : Type 0 where
  pub year : ℕ
  pub month : ℕ
  pub day : ℕ

abbrev pub Moment : Type 0
Moment = ℕ

pub record DateTime : Type 0 where
  pub date : Date
  pub hour : ℕ
  pub minute : ℕ
  pub second : ℕ

abbrev pub date_beq : Date → Date → Bool
date_beq a b = nat_beq a.year b.year && (nat_beq a.month b.month && nat_beq a.day b.day)

pub date_beq_iff : (a b : Date) → (date_beq a b ≡ true) ↔ (a ≡ b)
date_beq_iff a b = ground arith

instance abbrev pub date_eq : Comparable Date
date_eq = record { equal = date_beq; equal_iff = date_beq_iff }

-- `a < b`
unfoldable pub date_ltb : Date → Date → Bool
date_ltb a b =
    if nat_beq a.year b.year
    then (if nat_beq a.month b.month then ltb a.day b.day else ltb a.month b.month)
    else ltb a.year b.year

-- `a <= b`
unfoldable pub date_leb : Date → Date → Bool
unfolding date_ltb
date_leb a b = not (date_ltb b a)

pub date_ltb_irrefl : (a : Date) → date_ltb a a ≡ false
unfolding date_ltb
date_ltb_irrefl a = ground arith

pub date_ltb_trans :
    (a b c : Date) → date_ltb a b ≡ true → date_ltb b c ≡ true → date_ltb a c ≡ true
unfolding date_ltb
date_ltb_trans a b c h k = ground arith

abbrev pub datetime_beq : DateTime → DateTime → Bool
datetime_beq a b =
    date_beq a.date b.date
    && (nat_beq a.hour b.hour && (nat_beq a.minute b.minute && nat_beq a.second b.second))

pub datetime_beq_iff : (a b : DateTime) → (datetime_beq a b ≡ true) ↔ (a ≡ b)
datetime_beq_iff a b = ground arith

instance abbrev pub datetime_eq : Comparable DateTime
datetime_eq = record { equal = datetime_beq; equal_iff = datetime_beq_iff }
