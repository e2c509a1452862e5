-- ===== src/Following.antt =====
-- cluster_follow.go: which follower gets which entry of the write-ahead log. A Go map is an association
-- list, and names are of any type with equality, since they only serve as keys. A panic gives none.
pub mod Dispatch
pub mod Conditions
pub mod Earliest
mod Tests
use zenodb.Prelude.{
  ℕ, ◌≡◌, Bool, true, false, Option, none, some, List, [], ◌∷◌, ◌++◌, if◌then◌else◌, ◌>>=◌, is_nil,
  ◌&&◌, ◌%◌, ◌==◌,
}
use zenodb.Prelude.Assoc.{Key, Assoc, int_key, get, put}
use zenodb.Offsets.{WalOffset, OffsetsBySource, or_nil}
use zenodb.Metrics.{FollowerId, follower_key}

module _ (w : WalOffset) where
  open w use {Offset, nil_offset, after}

  -- `followSpec`.
  pub record FollowSpec : Type 0 where
    pub follower_id : FollowerId
    pub offset : Offset

  abbrev pub Specs : Type 0
  Specs = Assoc FollowerId FollowSpec

  module _ (Name Where : Type 0) where
    -- `tableSpec` and `partitionSpec`.
    pub record TableSpec : Type 0 where
      pub condition : Option Where
      pub condition_text : Name
      pub followers_by_partition : Assoc ℕ Specs

    pub record PartitionSpec : Type 0 where
      pub keys : List Name
      pub tables : Assoc Name TableSpec

    -- `PartitionTable`, `Partition` and `Follow` of common/common.go.
    pub record PartitionTable : Type 0 where
      pub name : Name
      pub offsets : OffsetsBySource w ℕ

    pub record Partition : Type 0 where
      pub keys : List Name
      pub tables : List PartitionTable

    pub record Follow : Type 0 where
      pub follower_id : FollowerId
      pub stream : Name
      pub earliest_offset : Offset
      pub partitions : Assoc Name Partition

    -- `partitionResult`, by the keys of its partition in `partitionsResult`.
    pub record PartitionResult : Type 0 where
      pub pid : ℕ
      pub where_passed : Assoc Name Bool

    abbrev pub PartitionsResult : Type 0
    PartitionsResult = Assoc Name PartitionResult

    abbrev pub Partitions : Type 0
    Partitions = Assoc Name PartitionSpec

-- Murmur hashing and the dimensions of a point (`bytemap.ByteMap`), which are outside. `sum32` is the
-- hash of all bytes that were written since a reset.
pub record Hashing (Name : Type 0) : Type 1 where
  pub Dims : Type 0
  pub bytes : Dims → List ℕ
  pub get_bytes : Dims → Name → List ℕ
  pub sum32 : List ℕ → ℕ

module _ {Name : Type 0} (h : Hashing Name) where
  open h use {Dims, bytes, get_bytes, sum32}

  -- The bytes that `partitionFor` writes into the hash.
  pub written : Dims → List Name → List ℕ
  written dims [] = []
  written dims (name ∷ names) = get_bytes dims name ++ written dims names

  -- `partitionFor`.
  unfoldable pub partition_for : ℕ → Dims → List Name → Option ℕ
  unfolding written
  partition_for num_partitions dims keys =
      let n = sum32 (if is_nil keys then bytes dims else written dims keys) in
      if num_partitions == 0 then none else some (n % num_partitions)

module _ (w : WalOffset) {Name Where : Type 0} ⦃name : Key Name⦄ where
  open w use {Offset, nil_offset, after}

  -- The offset that a joining follower has in a table: the later one of its earliest offset and what
  -- it has of the table from this source.
  pub start_offset : ℕ → Offset → PartitionTable w Name Where → Offset
  start_offset source earliest t =
      let offset = or_nil w (elim t.offsets [ none ↦ none | some offsets ↦ get source offsets ]) in
      if after earliest offset then earliest else offset

  -- `specs[f.FollowerID] = spec` in `onFollowerJoined`, with the maps made where they are missing.
  pub add_spec : FollowSpec w → TableSpec w Name Where → TableSpec w Name Where
  add_spec spec table =
      let p = spec.follower_id.partition in
      let specs : Specs w = elim (get p table.followers_by_partition) [ none ↦ [] | some s ↦ s ] in
      record table {
        followers_by_partition =
            put p (put spec.follower_id spec specs) table.followers_by_partition;
      }

  -- `db.getTable` gives the condition of a table, with its text in lower case.
  module _ (get_table : Name → Option (Option Where × Name)) where
    -- A round of the loop over the tables of a partition.
    pub add_table :
        ℕ
        → FollowerId
        → Offset
        → PartitionTable w Name Where
        → PartitionSpec w Name Where
        → PartitionSpec w Name Where
    unfolding start_offset add_spec
    add_table source id earliest t ps =
        let found : Option (TableSpec w Name Where) = elim (get t.name ps.tables) [
          | some table ↦ some table
          | none ↦ elim (get_table t.name) [
            | none ↦ none
            | some (condition, text) ↦ some (record {
              condition = condition;
              condition_text = text;
              followers_by_partition = [];
            })
          ]
        ] in
        let spec : FollowSpec w = record {
          follower_id = id;
          offset = start_offset source earliest t;
        } in
        elim found [
          | none ↦ ps
          | some table ↦ record ps { tables = put t.name (add_spec spec table) ps.tables }
        ]

    pub add_tables :
        ℕ
        → FollowerId
        → Offset
        → List (PartitionTable w Name Where)
        → PartitionSpec w Name Where
        → PartitionSpec w Name Where
    unfolding add_table
    add_tables source id earliest [] ps = ps
    add_tables source id earliest (t ∷ ts) ps =
        add_tables source id earliest ts (add_table source id earliest t ps)

    -- The loop over the partitions; `sorted_keys` is `sortedPartitionKeys`, with the sort and the join of
    -- the library.
    module _ (sorted_keys : List Name → Name × List Name) where
      pub add_partitions :
          ℕ
          → FollowerId
          → Offset
          → Assoc Name (Partition w Name Where)
          → Partitions w Name Where
          → Partitions w Name Where
      unfolding add_tables
      add_partitions source id earliest [] partitions = partitions
      add_partitions source id earliest ((n, p) ∷ ps) partitions =
          let k = sorted_keys p.keys in
          let spec : PartitionSpec w Name Where = elim (get k.0 partitions) [
            | none ↦ record { keys = k.1; tables = [] }
            | some s ↦ s
          ] in
          add_partitions source id earliest ps
            (put k.0 (add_tables source id earliest p.tables spec) partitions)

      -- `onFollowerJoined`, of its state only the streams.
      pub on_follower_joined :
          ℕ
          → Follow w Name Where
          → Assoc Name (Partitions w Name Where)
          → Assoc Name (Partitions w Name Where)
      unfolding add_partitions
      on_follower_joined source f streams =
          let partitions : Partitions w Name Where = elim (get f.stream streams) [
            | none ↦ []
            | some s ↦ s
          ] in
          put f.stream
            (add_partitions source f.follower_id f.earliest_offset f.partitions partitions) streams
