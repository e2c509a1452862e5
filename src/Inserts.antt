-- ===== src/Inserts.antt =====
-- insert.go: a point on its way from a client through the write-ahead log to the row store of a table.
pub mod Values
pub mod Entries
mod Tests
use zenodb.Prelude.{
  ℕ, ◌+◌, ◌^◌, ◌%◌, ◌==◌, ◌≡◌, Bool, true, false, not, Option, none, some, List, [], ◌∷◌, ◌++◌, ltb,
  length, replicate, is_nil, if◌then◌else◌, ◌>>=◌, map,
}
use zenodb.Prelude.Int.{ℤ, pos, negsuc}
use zenodb.Encoding.Binary.{put_uint32, read_int32, read}
use zenodb.Encoding.Time.{Time, encode_time, time_from_bytes}
use zenodb.Following.{Hashing, partition_for}

-- What `InsertRaw` does: a write to the log of the stream, or an error.
pub data Raw : Type 0 where
  to_wal : List ℕ → Raw
  declined : Raw
  no_wal : Raw

-- `WriteInt32` of a length into four new bytes, and the bytes.
pub sized : List ℕ → List ℕ
sized b = put_uint32 (length b % 2 ^ 32) ++ b

-- The entry that `InsertRaw` writes. `none` is a panic.
pub wal_entry : Time → List ℕ → List ℕ → Option (List ℕ)
unfolding sized
wal_entry ts dims vals = do
  tsd ← encode_time (replicate 8 0) ts
  some (tsd ++ (sized dims ++ sized vals))

-- `InsertRaw`, on a follower or not, for a stream that has a log or not. `slice` takes the dimensions that are
-- on the list of those allowed, if there is one.
pub insert_raw : Bool → Bool → Option (List ℕ → List ℕ) → Time → List ℕ → List ℕ → Option Raw
unfolding wal_entry
insert_raw follower known slice ts dims vals =
    if follower then some declined else if not known then some no_wal else do
      entry ← wal_entry ts (elim slice [ none ↦ dims | some f ↦ f dims ]) vals
      some (to_wal entry)

-- A value of a point: a float64, an int, an array of the one or the other, or something else.
pub data Val (F : Type 0) : Type 0 where
  one : F → Val F
  whole : ℤ → Val F
  many : List F → Val F
  wholes : List ℤ → Val F
  unsupported : Val F

-- `mainVals`, and `additionalVals`, each of which has one value.
pub record Split (F : Type 0) : Type 0 where
  pub main : List (List ℕ × F)
  pub extra : List (List ℕ × F)

pub named : {F : Type 0} → List ℕ → List F → List (List ℕ × F)
named k [] = []
named k (v ∷ vs) = (k, v) ∷ named k vs

-- `include` of a value, and the values after it as additional ones, ahead of what the rest comes to.
pub included : {F : Type 0} → List ℕ → F → List F → Split F → Split F
unfolding named
included k v vs s = record { main = (k, v) ∷ s.main; extra = named k vs ++ s.extra }

-- The function given to `IterateValues`, over all values, with `float64(v)` of an int. Go panics on an empty
-- array, which is none.
pub split_values : {F : Type 0} → (ℤ → F) → List (List ℕ × Val F) → Option (Split F)
unfolding included
split_values float64 [] = some (record { main = []; extra = [] })
split_values float64 ((k, one v) ∷ vals) =
    split_values float64 vals >>= λ s. some (included k v [] s)
split_values float64 ((k, whole v) ∷ vals) =
    split_values float64 vals >>= λ s. some (included k (float64 v) [] s)
split_values float64 ((k, many []) ∷ vals) = none
split_values float64 ((k, many (v ∷ vs)) ∷ vals) =
    split_values float64 vals >>= λ s. some (included k v vs s)
split_values float64 ((k, wholes []) ∷ vals) = none
split_values float64 ((k, wholes (v ∷ vs)) ∷ vals) =
    split_values float64 vals >>= λ s. some (included k (float64 v) (map float64 vs) s)
split_values float64 ((k, unsupported) ∷ vals) = split_values float64 vals

-- `insert`: what is sent to the row store. Its `vals` have the time and these values.
pub record Insert (F O : Type 0) : Type 0 where
  pub key : Option (List ℕ)
  pub ts : Time
  pub vals : List (List ℕ × F)
  pub metadata : List ℕ
  pub offset : O
  pub source : ℤ

-- What `table.insert` does: the inserts, whether it returns true, and by how much the points filtered and
-- inserted are counted up.
pub record Done (F O : Type 0) : Type 0 where
  pub sent : List (Insert F O)
  pub ok : Bool
  pub filtered : ℕ
  pub inserted : ℕ

-- What a table has from its query: `truncateBefore`, the condition, whose evaluation may panic, the grouping
-- of the dimensions, if there is one, and the names that it is partitioned by.
pub record Table (Name : Type 0) : Type 0 where
  pub before : Time
  pub condition : Option (List ℕ → Option Bool)
  pub group_by : Option (List ℕ → List ℕ)
  pub partition_by : List Name

-- The partition of a follower, and how many there are.
pub record Follower : Type 0 where
  pub partition : ℕ
  pub num_partitions : ℕ

-- `ReadInt32` and `Read`.
pub read_sized : List ℕ → Option (List ℕ × List ℕ)
read_sized b = elim (read_int32 b) [
  | none ↦ none
  | some (negsuc l, rest) ↦ none
  | some (pos l, rest) ↦ read rest l
]

-- The condition of a table on the dimensions: none lets every point through.
pub meets : Option (List ℕ → Option Bool) → List ℕ → Option Bool
meets none dims = some true
meets (some c) dims = c dims

-- The key of a row.
pub group_key : Option (List ℕ → List ℕ) → List ℕ → List ℕ
group_key none dims = dims
group_key (some g) dims = g dims

-- Byte maps are the library's: `dims_of` is one as dimensions, and `values_of` lists the values of one.
-- `float64` is Go's conversion of an int.
module _ {Name : Type 0} (h : Hashing Name) (dims_of : List ℕ → h.Dims) where
  -- Whether the dimensions are in the partition of the follower, if it is one.
  pub relevant : Table Name → Option Follower → List ℕ → Option Bool
  relevant t none dims = some true
  relevant t (some f) dims = partition_for h f.num_partitions (dims_of dims) t.partition_by >>= λ p.
      some (p == f.partition)

module _ {Name F O : Type 0} (h : Hashing Name) (dims_of : List ℕ → h.Dims) (float64 : ℤ → F)
    (values_of : List ℕ → List (List ℕ × Val F)) where
  not_inserted : ℕ → Done F O
  not_inserted filtered = record { sent = []; ok = false; filtered = filtered; inserted = 0 }

  -- The inserts of a point: the main one, if it has values, and then the others.
  pub inserts_of : (List (List ℕ × F) → Insert F O) → Split F → List (Insert F O)
  inserts_of make s =
      (if is_nil s.main then [] else make s.main ∷ []) ++ map (λ v. make (v ∷ [])) s.extra

  -- An insert of the point with some of its values.
  pub point_of : Table Name → Time → List ℕ → O → ℤ → List (List ℕ × F) → Insert F O
  unfolding group_key
  point_of t ts dims offset source vs = record {
    key = some (group_key t.group_by dims);
    ts = ts;
    vals = vs;
    metadata = dims;
    offset = offset;
    source = source;
  }

  -- `doInsert`, but for the advance of the clock.
  pub do_insert : Table Name → Time → List ℕ → List ℕ → O → ℤ → Option (Done F O)
  unfolding not_inserted inserts_of point_of meets
  do_insert t ts dims vals offset source = do
    ok ← meets t.condition dims
    if not ok then some (not_inserted 1) else do
      s ← split_values float64 (values_of vals)
      let sent = inserts_of (point_of t ts dims offset source) s
      some (record { sent = sent; ok = true; filtered = 0; inserted = length sent })

  -- `table.insert`, before it recovers from a panic.
  pub insert : Table Name → Option Follower → List ℕ → O → ℤ → Option (Done F O)
  unfolding do_insert relevant
  insert t follower entry offset source = do
    tsd ← read entry 8
    ts ← time_from_bytes tsd.0
    if ltb ts t.before then some (not_inserted 0) else do
      dims ← read_sized tsd.1
      mine ← relevant h dims_of t follower dims.0
      if not mine
          then some (not_inserted 0)
          else do vals ← read_sized dims.1; do_insert t ts dims.0 vals.0 offset source

  -- `skip`.
  pub skip : O → ℤ → Insert F O
  skip offset source = record {
    key = none;
    ts = 0;
    vals = [];
    metadata = [];
    offset = offset;
    source = source;
  }

  -- A round of `processInserts`: what goes to the row store for an entry, which may be nil. After a panic
  -- `insert` returns false.
  pub process_read : Table Name → Option Follower → Option (List ℕ) → O → ℤ → List (Insert F O)
  unfolding insert skip
  process_read t follower none offset source = []
  process_read t follower (some entry) offset source =
      elim (insert t follower entry offset source) [
        | none ↦ skip offset source ∷ []
        | some d ↦ if d.ok then d.sent else skip offset source ∷ []
      ]
