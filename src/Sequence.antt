-- ===== src/Sequence.antt =====
-- encoding/seq.go: sequences of accumulators, the newest first, behind eight bytes with the time at
-- which the sequence ends. The empty list is nil. Where Go panics, or divides by zero, there is none.
pub mod Header
pub mod Periods
pub mod Slices
pub mod Values
pub mod Truncation
pub mod Merging
mod Tests
use zenodb.Prelude.{
  ℕ, suc, ◌+◌, ◌-◌, ◌*◌, ◌/◌, ◌≤◌, ◌≡◌, Bool, true, false, ◌||◌, ◌&&◌, not, Option, none, some,
  List, [], ◌∷◌, ◌++◌, ◌==◌, leb, ltb, if◌then◌else◌, length, take, drop, replicate, is_nil, ◌>>=◌,
}
use zenodb.Prelude.Int.{ℤ, pos}
use zenodb.Encoding.Duration.{since, add_back}
use zenodb.Encoding.Time.{Time, encode_time, time_from_bytes, time_int_from_bytes, round_time_up}
use zenodb.Encoding.Until.{Quotients, round_time_until_up, round_time_until_down}

-- `Sequence`.
abbrev pub Sequence : Type 0
Sequence = List ℕ

-- `int(a / b)` of durations, or `a / b` of ints.
unfoldable pub quotient : ℕ → ℕ → Option ℕ
quotient a b = if b == 0 then none else some (a / b)

-- `NewSequence`, with the bytes that `make` gives.
pub new_sequence : ℕ → ℕ → Sequence
new_sequence width periods = replicate (8 + periods * width) 0

-- `Until`, `UntilInt`, `SetUntil`, the latter with the bytes after it.
unfoldable pub until : Sequence → Option Time
until seq = if is_nil seq then some 0 else time_from_bytes seq

pub until_int : Sequence → Option ℤ
until_int seq = if is_nil seq then some (pos 0) else time_int_from_bytes seq

pub set_until : Sequence → Time → Option Sequence
set_until seq t = encode_time seq t

-- `DataLength`, of what has the eight bytes, and `NumPeriods`.
pub data_length : Sequence → ℕ
data_length seq = length seq - 8

unfoldable pub num_periods : ℕ → Sequence → Option ℕ
unfolding data_length
num_periods width seq = if is_nil seq then some 0 else quotient (data_length seq) width

-- `AsOf`.
unfoldable pub as_of : ℕ → ℕ → Sequence → Option Time
as_of width resolution seq =
    if is_nil seq
    then some 0
    else do u ← until seq; n ← num_periods width seq; some (add_back u (n * resolution))

-- What `Truncate` leaves: the result, and the array of the receiver, into which `SetUntil` writes.
pub record Truncated : Type 0 where
  pub result : Sequence
  pub array : Sequence

-- The part of `Truncate` for `until`: nothing, nil, or a slice with its own end.
pub cut_newer : ℕ → ℕ → Time → Time → Sequence → Option Truncated
cut_newer width resolution old to seq =
    if to == 0 then some (record { result = seq; array = seq }) else do
      n ← quotient (since old to) resolution
      if n == 0
          then some (record { result = seq; array = seq })
          else if leb (length seq) (n * width + 8)
          then some (record { result = []; array = seq })
          else do
            r ← set_until (drop (n * width) seq) to
            some (record { result = r; array = take (n * width) seq ++ r })

-- The part for `asOf`.
pub cut_older : ℕ → ℕ → Time → Sequence → Option Sequence
cut_older width resolution from seq = if from == 0 then some seq else do
  u ← until seq
  m ← quotient (since u from) resolution
  if m == 0
      then some []
      else some (if leb (length seq) (8 + m * width) then seq else take (8 + m * width) seq)

module _ (q : Quotients) where
  -- `Truncate`.
  pub truncate : ℕ → ℕ → Time → Time → Sequence → Option Truncated
  truncate width resolution as_of to seq =
      if is_nil seq then some (record { result = []; array = [] }) else do
        old ← until seq
        t ← cut_newer width resolution old (round_time_until_down q to resolution old) seq
        if is_nil t.result then some t else do
          r ← cut_older width resolution (round_time_until_down q as_of resolution old) t.result
          some (record t { result = r })
