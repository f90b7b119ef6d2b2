-- ===== src/Clock.antt =====
-- The values of Go's `time` package that the program uses. A `time.Time` is the number of
-- nanoseconds since Go's zero time (year 1, UTC), so the zero time is 0 and a time before year 1
-- has no counterpart; a `time.Duration` is a signed number of nanoseconds.
use redrill.Prelude.{
  ℕ, suc, ◌+◌, ◌-◌, ◌*◌, ◌≤◌, ◌<◌, ◌≡◌, Bool, arith, ltb, leb, ◌==◌, if◌then◌else◌,
}
use redrill.Prelude.Int.{ℤ, pos, negsuc, pos_part, neg_part, sub_ℕ, ltb_ℤ, max_int64, wrap64}

abbrev pub Time : Type 0
Time = ℕ

abbrev pub Duration : Type 0
Duration = ℤ

abbrev pub zero_time : Time
zero_time = 0

-- t.IsZero()
abbrev pub is_zero : Time → Bool
is_zero t = t == 0

-- t.After(u) and t.Before(u)
abbrev pub after : Time → Time → Bool
after t u = ltb u t

abbrev pub before : Time → Time → Bool
before t u = ltb t u

-- The nearest duration: `Sub` saturates.
abbrev pub saturate : ℤ → Duration
saturate (pos n) = if leb n max_int64 then pos n else pos max_int64
saturate (negsuc n) = if leb n max_int64 then negsuc n else negsuc max_int64

-- t.Sub(u)
abbrev pub sub : Time → Time → Duration
sub t u = saturate (sub_ℕ t u)

-- t.Add(d); a result before the zero time is the zero time.
abbrev pub add : Time → Duration → Time
add t (pos n) = t + n
add t (negsuc n) = t - suc n

-- A duration is an `int64`.
abbrev pub InRange : Duration → Type 0
InRange d = (pos_part d ≤ max_int64) × (neg_part d ≤ suc max_int64)

abbrev pub second : ℕ
second = 1000000000

abbrev pub minute : ℕ
minute = 60 * second

abbrev pub hour : ℕ
hour = 60 * minute

abbrev pub day : ℕ
day = 24 * hour

-- time.Duration(n) * 24 * time.Hour of a number that is not negative: the product wraps around.
unfoldable pub of_days : ℤ → Duration
of_days n = wrap64 (pos_part n * day)

-- For an age within range the difference is exact.
pub sub-le_iff_le : (t u m : ℕ) → m < max_int64 → (ltb_ℤ (pos m) (sub t u) ≡ ltb (u + m) t)
sub-le_iff_le t u m h = ground arith
