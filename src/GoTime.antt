-- ===== src/GoTime.antt =====
-- `time.Time` and `time.Duration` of Go's standard library, as far as the program uses them.
-- A time is its instant, in nanoseconds from the earliest one that the type can hold, which is
-- 2^63 seconds before the year 1. A duration is a signed number of nanoseconds. The location of a
-- time (`.UTC()`) does not change its instant and is not modelled.
use iot_api.Common.{
  zero, suc, ℕ, ◌+◌, ◌-◌, ◌*◌, ◌/◌, ◌^◌, ◌<◌, ◌≡◌, Bool, arith, ltb, leb, nat_eq, if◌then◌else◌,
}
use iot_api.Common.Int.{ℤ, pos, negsuc, sub_ℕ, ltb_ℤ}

abbrev pub Time : Type 0
Time = ℕ

abbrev pub Duration : Type 0
Duration = ℤ

-- `time.Time{}`: January 1 of the year 1.
abbrev pub zero_time : Time
zero_time = 2 ^ 63 * 10 ^ 9

-- January 1, 1970.
abbrev pub unix_epoch : Time
unix_epoch = zero_time + 62135596800 * 10 ^ 9

abbrev pub second : ℕ
second = 10 ^ 9

unfoldable pub is_zero : Time → Bool
is_zero t = nat_eq t zero_time

abbrev pub before : Time → Time → Bool
before t u = ltb t u

abbrev pub after : Time → Time → Bool
after t u = ltb u t

abbrev pub equal : Time → Time → Bool
equal t u = nat_eq t u

-- The longest duration. `Sub` returns it (or its negative) where the difference does not fit.
abbrev pub max_duration : ℕ
max_duration = 2 ^ 63 - 1

unfoldable pub saturate : ℤ → Duration
saturate (pos n) = if leb n max_duration then pos n else pos max_duration
saturate (negsuc n) = if leb n max_duration then negsuc n else negsuc max_duration

-- `t.Sub(u)`.
unfoldable pub sub : Time → Time → Duration
unfolding saturate
sub t u = saturate (sub_ℕ t u)

-- `t.Add(d)`.
unfoldable pub add : Time → Duration → Time
add t (pos n) = t + n
add t (negsuc n) = t - (n + 1)

-- `-d`, which wraps at the least duration.
unfoldable pub negate : Duration → Duration
negate (pos zero) = pos zero
negate (pos (suc n)) = negsuc n
negate (negsuc n) = if nat_eq n max_duration then negsuc n else pos (suc n)

-- `t.UnixMilli()`.
unfoldable pub unix_milli : Time → ℤ
unix_milli t = sub_ℕ (t / 10 ^ 6) (unix_epoch / 10 ^ 6)

-- For a limit below the longest duration, `t.Sub(u) > d` is an order of instants.
pub sub-exceeds : (t u n : ℕ) → n < max_duration → ltb_ℤ (pos n) (sub t u) ≡ ltb (u + n) t
unfolding sub
sub-exceeds t u n h = ground arith
