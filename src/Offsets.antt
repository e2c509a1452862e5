-- ===== src/Offsets.antt =====
-- common/common.go: `OffsetsBySource`, how far each source of a write-ahead log was read.
pub mod Join
pub mod Times
pub mod Samples
mod Tests
use zenodb.Prelude.{
  ℕ, ◌≡◌, refl, ◌⊎◌, Bool, true, false, Option, none, some, List, [], ◌∷◌, if◌then◌else◌, ◌==◌, ltb,
  ◌||◌,
}
use zenodb.Prelude.Assoc.{Key, Assoc, get, put}

-- `wal.Offset` is the write-ahead log's: `nil_offset` is Go's nil, `after` is `After`, and `ts` the
-- time of an offset as `TS` gives it, in nanoseconds since year 1. Its `After` compares the offsets
-- as byte strings, so it is a strict order in which any two differ one way or are equal.
pub record WalOffset : Type 1 where
  pub Offset : Type 0
  pub nil_offset : Offset
  pub after : Offset → Offset → Bool
  pub ts : Offset → ℕ
  pub after_irrefl : (a : Offset) → after a a ≡ false
  pub after_trans : (a b c : Offset) → after a b ≡ true → after b c ≡ true → after a c ≡ true
  pub after_total : (a b : Offset) → after a b ≡ false → after b a ≡ false → a ≡ b
  pub nil_lowest : (a : Offset) → after nil_offset a ≡ false

-- `OffsetsBySource`: `none` is Go's nil map. The ints of the sources only serve as keys, so any key
-- type with equality does.
abbrev pub OffsetsBySource : WalOffset → Type 0 → Type 0
OffsetsBySource w K = Option (Assoc K w.Offset)

-- What a read of the map gives: Go's nil for a source that is not there.
pub or_nil : (w : WalOffset) → Option w.Offset → w.Offset
or_nil w none = w.nil_offset
or_nil w (some o) = o

pub or_nil-some : (w : WalOffset) (o : w.Offset) → or_nil w (some o) ≡ o
unfolding or_nil
or_nil-some w o = refl

module _ (w : WalOffset) {K : Type 0} ⦃key : Key K⦄ where
  open w use {Offset, nil_offset, after, ts}

  -- The second loop of `Advance`.
  pub raise_all : Assoc K Offset → Assoc K Offset → Assoc K Offset
  unfolding or_nil
  raise_all result [] = result
  raise_all result ((source, new_offset) ∷ news) =
      raise_all
        (if after new_offset (or_nil w (get source result))
          then put source new_offset result
          else result)
        news

  -- `Advance`. Its first loop copies the map.
  pub advance : OffsetsBySource w K → OffsetsBySource w K → OffsetsBySource w K
  advance none news = news
  advance (some offsets) none = some offsets
  advance (some offsets) (some news) = some (raise_all offsets news)

  -- The loop of `LimitAge`: the map has each source once, so `result[source] = …` adds an entry.
  limit_all : Offset → Assoc K Offset → Assoc K Offset
  limit_all limit [] = []
  limit_all limit ((source, offset) ∷ rest) =
      (source, if after limit offset then limit else offset) ∷ limit_all limit rest

  -- `LimitAge`: the result is never nil.
  pub limit_age : Offset → OffsetsBySource w K → OffsetsBySource w K
  unfolding limit_all
  limit_age limit none = some []
  limit_age limit (some offsets) = some (limit_all limit offsets)

  -- The loops of `LowestTS` and `HighestTS`. The zero time is 0.
  pub lowest_from : ℕ → Assoc K Offset → ℕ
  lowest_from result [] = result
  lowest_from result ((source, offset) ∷ rest) =
      lowest_from (if (result == 0) || ltb (ts offset) result then ts offset else result) rest

  pub highest_from : ℕ → Assoc K Offset → ℕ
  highest_from result [] = result
  highest_from result ((source, offset) ∷ rest) =
      highest_from (if (result == 0) || ltb result (ts offset) then ts offset else result) rest

  -- `LowestTS`; a nil map has no entries.
  pub lowest_ts : OffsetsBySource w K → ℕ
  unfolding lowest_from
  lowest_ts none = 0
  lowest_ts (some offsets) = lowest_from 0 offsets

  -- `HighestTS`.
  pub highest_ts : OffsetsBySource w K → ℕ
  unfolding highest_from
  highest_ts none = 0
  highest_ts (some offsets) = highest_from 0 offsets
