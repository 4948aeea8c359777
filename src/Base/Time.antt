-- ===== src/Base/Time.antt =====
-- `time.Time` and `time.Duration` of Go's standard library, as far as the program uses them.
-- An instant is its signed distance in nanoseconds from the Unix epoch; a duration is an int64
-- of nanoseconds. `sub` saturates as `Time.Sub` does; `add` is exact.
use Prim.Native.Nat.{◌*◌, ◌+◌, ◌-◌, ◌/◌, ◌^◌}
use mathlib.Core.Path.{◌≡◌}
use mathlib.Core.Bool.{Bool}
use native.Mathlib.Omega.{arith}
use signalwatch.Base.Tests.{if◌then◌else◌}
use signalwatch.Base.Int.{ℤ, pos, negsuc, ◌+ℤ◌, ◌-ℤ◌, ◌≤ℤ◌, ltb_ℤ, eqb_ℤ}

abbrev pub Time : Type 0
Time = ℤ

abbrev pub Duration : Type 0
Duration = ℤ

-- January 1, year 1, 00:00:00 UTC.
unfoldable pub zero_time : Time
zero_time = negsuc 62135596799999999999

unfoldable pub is_zero : Time → Bool
is_zero t = eqb_ℤ t zero_time

-- The int64 bounds of a duration.
abbrev max_duration : ℤ
max_duration = pos (2 ^ 63 - 1)

abbrev min_duration : ℤ
min_duration = negsuc (2 ^ 63 - 1)

unfoldable pub sub : Time → Time → Duration
unfolding ◌-ℤ◌
sub t u =
    let d = t -ℤ u in
    if ltb_ℤ max_duration d then max_duration else if ltb_ℤ d min_duration then min_duration else d

unfoldable pub add : Time → Duration → Time
unfolding ◌+ℤ◌
add t d = t +ℤ d

abbrev pub before : Time → Time → Bool
before t u = ltb_ℤ t u

abbrev pub after : Time → Time → Bool
after t u = ltb_ℤ u t

unfoldable pub negate : Duration → Duration
unfolding ◌-ℤ◌
negate d = pos 0 -ℤ d

-- `Time.UnixMilli`: milliseconds since the epoch, rounded down.
unfoldable pub unix_milli : Time → ℤ
unix_milli (pos n) = pos (n / 1000000)
unix_milli (negsuc n) = negsuc (n / 1000000)

-- `time.UnixMilli`: the instant of a millisecond count.
unfoldable pub of_unix_milli : ℤ → Time
of_unix_milli (pos n) = pos (n * 1000000)
of_unix_milli (negsuc n) = negsuc (n * 1000000 + 999999)

-- A count of milliseconds survives the way to an instant and back.
pub unix_milli-of_unix_milli : (m : ℤ) → unix_milli (of_unix_milli m) ≡ m
unfolding unix_milli of_unix_milli
unix_milli-of_unix_milli m = ground arith

-- The way through milliseconds never moves an instant forward.
pub of_unix_milli-le : (t : Time) → of_unix_milli (unix_milli t) ≤ℤ t
unfolding unix_milli of_unix_milli
of_unix_milli-le t = ground arith

-- The way through milliseconds loses less than a millisecond.
pub of_unix_milli_close : (t : Time) → t ≤ℤ of_unix_milli (unix_milli t) +ℤ pos 999999
unfolding unix_milli of_unix_milli ◌+ℤ◌
of_unix_milli_close t = ground arith

-- A later start makes a shorter elapsed time.
pub sub_antitone : (now t u : Time) → t ≤ℤ u → sub now u ≤ℤ sub now t
unfolding sub
sub_antitone now t u h = ground arith
