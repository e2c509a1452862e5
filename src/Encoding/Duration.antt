-- ===== src/Encoding/Duration.antt =====
-- Go's time.Time and time.Duration, as encoding/time.go and encoding/seq.go use them: a duration is an
-- int64 of nanoseconds, whose products wrap around, and `Sub` of two times stops at the ends of int64.
use zenodb.Prelude.{ℕ, ◌+◌, ◌-◌, ◌%◌, ◌^◌, ◌<◌, ◌≡◌, min, arith, leb, ltb, if◌then◌else◌}
use zenodb.Encoding.Time.{Time}

-- `a.Sub(b)`, where it is not negative, and zero otherwise.
unfoldable pub since : Time → Time → ℕ
since a b = min (a - b) (2 ^ 63 - 1)

-- `a.Sub(b)` without its sign, where it is negative, and zero otherwise.
unfoldable pub ahead_of : Time → Time → ℕ
ahead_of a b = min (b - a) (2 ^ 63)

-- `ts.Add(d)` and `ts.Add(-d)`, where d is what a product comes to before it wraps.
unfoldable pub add_ahead : Time → ℕ → Time
add_ahead ts d = let w = d % 2 ^ 64 in if ltb w (2 ^ 63) then ts + w else ts - (2 ^ 64 - w)

unfoldable pub add_back : Time → ℕ → Time
add_back ts d = let w = d % 2 ^ 64 in if leb w (2 ^ 63) then ts - w else ts + (2 ^ 64 - w)

-- Below 2 ^ 63 nanoseconds nothing is cut.
pub since_lem : (a b : Time) → a - b < 2 ^ 63 → since a b ≡ a - b
unfolding since
since_lem a b h = omega (arith, h)

pub add_ahead_lem : (ts : Time) (d : ℕ) → d < 2 ^ 63 → add_ahead ts d ≡ ts + d
unfolding add_ahead
add_ahead_lem ts d h = ground (arith, h)

pub add_back_lem : (ts : Time) (d : ℕ) → d < 2 ^ 63 → add_back ts d ≡ ts - d
unfolding add_back
add_back_lem ts d h = ground (arith, h)
