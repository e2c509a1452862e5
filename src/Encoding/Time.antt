-- ===== src/Encoding/Time.antt =====
-- encoding/time.go: instants as bytes, and rounding to a resolution. An instant is the number of its
-- nanoseconds since Go's zero time, the start of year 1, which rounding counts from.
use zenodb.Prelude.{
  ℕ, suc, ◌+◌, ◌-◌, ◌*◌, ◌/◌, ◌%◌, ◌^◌, ◌≤◌, ◌<◌, ◌≡◌, ◌++◌, refl, ap, ◌∙◌, Bool-cases, inl, inr,
  Option, some, List, arith, length, drop, is_nil, false, ◌==◌, ltb, leb, if◌then◌else◌, ◌>>=◌,
}
use zenodb.Prelude.Int.{ℤ, pos, negsuc, sub_ℕ}
use zenodb.Encoding.Binary.{
  length-put_uint64, put_uint64, uint64, to_word, to_int64, IsInt64, overwrite, overwrite_lem,
  to_word_lt, to_int64-to_word, uint64-put,
}
use native.Mathlib.Nat.{div-add-mod, mod-lt, mod-le}

abbrev pub Time : Type 0
Time = ℕ

abbrev pub second : ℕ
second = 1000000000

abbrev nanos_per_milli : ℕ
nanos_per_milli = 1000000

-- The start of 1970.
abbrev pub unix_epoch : Time
unix_epoch = 62135596800 * second

-- `UnixNano`, before it is cut to 64 bits.
abbrev pub unix_nano : Time → ℤ
unix_nano ts = sub_ℕ ts unix_epoch

-- `EncodeTime`, the slice after it.
pub encode_time : List ℕ → Time → Option (List ℕ)
encode_time b ts = overwrite (put_uint64 (to_word (2 ^ 64) (unix_nano ts))) b >>= λ w. some w.0

unfoldable pub time_int_from_bytes : List ℕ → Option ℤ
time_int_from_bytes b = uint64 b >>= λ u. some (to_int64 u)

-- `TimeFromInt`: seconds and nanoseconds for `time.Unix`, by a division that truncates to zero.
unfoldable pub time_from_int : ℤ → Time
time_from_int (pos n) = unix_epoch + n / second * second + n % second
time_from_int (negsuc n) = unix_epoch - suc n / second * second - suc n % second

unfoldable pub time_from_bytes : List ℕ → Option Time
time_from_bytes b = time_int_from_bytes b >>= λ i. some (time_from_int i)

-- `Time.Round`: to the nearest multiple, halfway up.
pub round : Time → ℕ → Time
round ts resolution =
    let past = ts % resolution in
    if resolution == 0
    then ts
    else if ltb (past + past) resolution
    then ts - past
    else ts + (resolution - past)

-- `RoundTimeUp` and `RoundTimeDown`.
pub round_time_up : Time → ℕ → Time
unfolding round
round_time_up ts resolution =
    let rounded = round ts resolution in if ltb rounded ts then rounded + resolution else rounded

pub round_time_down : Time → ℕ → Time
unfolding round
round_time_down ts resolution =
    let rounded = round ts resolution in if ltb ts rounded then rounded - resolution else rounded

time_from_int-unix_nano : (ts : Time) → time_from_int (unix_nano ts) ≡ ts
unfolding time_from_int
time_from_int-unix_nano ts = elim (Bool-cases (leb unix_epoch ts)) [
  | inl h ↦ rw h (ground (arith, h))
  | inr h ↦ rw h (ground (arith, h))
]

-- The eight bytes of an instant.
pub header : Time → List ℕ
header ts = put_uint64 (to_word (2 ^ 64) (unix_nano ts))

pub length-header : (ts : Time) → length (header ts) ≡ 8
unfolding header
length-header ts = length-put_uint64 _

pub is_nil-header : (ts : Time) (d : List ℕ) → is_nil (header ts ++ d) ≡ false
unfolding header put_uint64
is_nil-header ts d = refl

pub encode_time-header :
    (b : List ℕ) (ts : Time) → 8 ≤ length b → encode_time b ts ≡ some (header ts ++ drop 8 b)
unfolding encode_time header
encode_time-header b ts h =
    let w = to_word (2 ^ 64) (unix_nano ts) in
    rw (overwrite_lem (put_uint64 w) b (rw (length-put_uint64 w) h), length-put_uint64 w) refl

pub time_from_bytes-header :
    (ts : Time) (d : List ℕ) → IsInt64 (unix_nano ts) → time_from_bytes (header ts ++ d) ≡ some ts
unfolding time_from_bytes time_int_from_bytes header
time_from_bytes-header ts d r =
    let w = to_word (2 ^ 64) (unix_nano ts) in
    let (p, q) = uint64-put w d (to_word_lt (2 ^ 64) (unix_nano ts) (omega arith)) in
    rw (p, to_int64-to_word (unix_nano ts) r) (ap some (time_from_int-unix_nano ts))

-- In a buffer of 8 bytes or more, an instant within 2 ^ 63 nanoseconds of the start of 1970 is decoded
-- as it was encoded.
pub time_from_bytes-encode_time :
    (b : List ℕ) (ts : Time)
    → IsInt64 (unix_nano ts)
    → 8 ≤ length b
    → encode_time b ts >>= time_from_bytes ≡ some ts
time_from_bytes-encode_time b ts r h =
    rw (encode_time-header b ts h) (time_from_bytes-header ts (drop 8 b) r)

-- Of two instants the second is not before the first, and less than one resolution after it.
abbrev pub IsRounded : ℕ → ℕ → ℕ → Type 0
IsRounded resolution low high = (low ≤ high) × (high < low + resolution)

-- The last multiple of the resolution that is not after the instant.
floor : Time → ℕ → ℕ
floor ts resolution = ts - ts % resolution

floor_multiple : (ts : Time) (resolution : ℕ) → floor ts resolution ≡ ts / resolution * resolution
unfolding floor
floor_multiple ts resolution = grind (arith, div-add-mod ts resolution)

round_up_floor :
    (ts : Time) (resolution : ℕ)
    → 0 < resolution
    → round_time_up ts resolution
      ≡ (if ts % resolution == 0 then floor ts resolution else floor ts resolution + resolution)
unfolding round_time_up round floor
round_up_floor ts resolution h = ground (arith, mod-lt ts h, mod-le ts resolution)

round_down_floor :
    (ts : Time) (resolution : ℕ)
    → 0 < resolution
    → round_time_down ts resolution ≡ floor ts resolution
unfolding round_time_down round floor
round_down_floor ts resolution h = ground (arith, mod-lt ts h, mod-le ts resolution)

up_multiple :
    (ts : Time) (resolution : ℕ)
    → 0 < resolution
    → (k : ℕ) × (round_time_up ts resolution ≡ k * resolution)
up_multiple ts resolution h = elim (Bool-cases (ts % resolution == 0)) [
  | inl e ↦ (ts / resolution, round_up_floor ts resolution h ∙ rw e (floor_multiple ts resolution))
  | inr e ↦ (
    suc (ts / resolution),
    round_up_floor ts resolution h ∙ rw (e, floor_multiple ts resolution) (grind arith),
  )
]

-- For a positive resolution `RoundTimeUp` and `RoundTimeDown` give multiples of it, the one not before
-- the instant and the other not after it, each less than one resolution away.
pub round_lem :
    (ts : Time) (resolution : ℕ)
    → 0 < resolution
    → ((k : ℕ) × (round_time_up ts resolution ≡ k * resolution))
      × ((k : ℕ) × (round_time_down ts resolution ≡ k * resolution))
      × IsRounded resolution ts (round_time_up ts resolution)
      × IsRounded resolution (round_time_down ts resolution) ts
unfolding floor
round_lem ts resolution h = (
  up_multiple ts resolution h,
  (ts / resolution, round_down_floor ts resolution h ∙ floor_multiple ts resolution),
  rw (round_up_floor ts resolution h) (ground (arith, mod-lt ts h, mod-le ts resolution)),
  rw (round_down_floor ts resolution h) (ground (arith, mod-lt ts h, mod-le ts resolution)),
)
