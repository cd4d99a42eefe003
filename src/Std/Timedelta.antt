-- ===== src/Std/Timedelta.antt =====
-- datetime: a moment in UTC as its distance from the epoch, a normalised timedelta.
use pysubunit.Prelude.{ℕ, ◌+◌, ◌*◌, ◌/◌, ◌%◌, ◌<◌, ◌≡◌, arith, ltb, ◌==◌, if◌then◌else◌}
use pysubunit.Prelude.Int.{ℤ, pos}

pub record Timedelta : Type 0 where
  pub days : ℤ
  pub seconds : ℕ
  pub microseconds : ℕ

-- What Python keeps of every timedelta.
pub record IsNormal (t : Timedelta) : Type 0 where
  pub seconds_fit : t.seconds < 86400
  pub microseconds_fit : t.microseconds < 1000000

-- A quotient by 1000 rounded to the nearest number, halves to the even one.
unfoldable pub thousandths : ℕ → ℕ
thousandths n =
    let q = n / 1000 in
    let r = n % 1000 in if ltb r 500 then q else if r == 500 then q + q % 2 else q + 1

-- timedelta(seconds=s, microseconds=ns / 1000) for a quotient that is a float.
unfoldable pub from_nanoseconds : ℕ → ℕ → Timedelta
unfolding thousandths
from_nanoseconds s ns =
    let us = thousandths ns in
    let total = s + us / 1000000 in
    record { days = pos (total / 86400); seconds = total % 86400; microseconds = us % 1000000 }

pub thousandths-mul : (n : ℕ) → thousandths (n * 1000) ≡ n
unfolding thousandths
thousandths-mul n = ground arith

-- The nanoseconds of a normalised moment after the epoch give it back.
pub from_nanoseconds_inverse :
    (d : ℕ) (t : Timedelta)
    → t.days ≡ pos d
    → IsNormal t
    → from_nanoseconds (t.seconds + d * 86400) (t.microseconds * 1000) ≡ t
unfolding from_nanoseconds
from_nanoseconds_inverse d t e n = ground (arith, thousandths-mul t.microseconds)
