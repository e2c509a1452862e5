-- ===== src/Cluster/Query.antt =====
-- cluster_query.go: the loop of `queryCluster` over the results that come from the partitions.
pub mod Errors
pub mod Accounts
pub mod Ends
use zenodb.Prelude.{
  ℕ, zero, suc, ◌+◌, ◌-◌, ◌≡◌, Bool, true, false, ◌||◌, Option, none, some, List, [], ◌∷◌, ltb,
  ◌==◌, if◌then◌else◌, ◌>>=◌,
}
use zenodb.Prelude.Int.{ℤ, pos, negsuc, ltb_ℤ}
use zenodb.Prelude.Assoc.{Assoc, int_key, get, put}
use zenodb.Core.{OnRow, is_some}
use zenodb.Cluster.Mapper.{Fields, Vals, partition_row_mapper}

-- `remoteResult`, without what is only logged. A key that is nil is none.
pub record RemoteResult (E Row : Type 0) : Type 0 where
  pub partition : ℕ
  pub fields : Option Fields
  pub key : Option (List ℕ)
  pub vals : Vals
  pub flat_row : Option Row
  pub high_water_mark : ℤ
  pub err : Option E

-- `QueryStats`.
pub record QueryStats : Type 0 where
  pub num_partitions : ℕ
  pub num_successful_partitions : ℕ
  pub lowest_high_water_mark : ℤ
  pub highest_high_water_mark : ℤ
  pub missing_partitions : List ℕ

-- What the select of the loop receives: a result, or that the time is over.
pub data Event (E Row : Type 0) : Type 0 where
  arrived : RemoteResult E Row → Event E Row
  expired : Event E Row

-- The callbacks of a query, on the state S of the client. A flat row comes with the fields that are
-- set on it.
pub record Client (S E Row : Type 0) : Type 0 where
  pub on_fields : S → Fields → S × Option E
  pub on_row : OnRow S E (List ℕ × Vals)
  pub on_flat_row : OnRow S E (Row × Option Fields)

-- The variables of `queryCluster`, with the state of the client. `missing` has the keys of
-- `missingPartitions`, in order, and `waiting` those of `resultsByPartition`.
pub record Progress (S E : Type 0) : Type 0 where
  pub client : S
  pub final_err : Option E
  pub missing : List ℕ
  pub stats : QueryStats
  pub stopped : Bool
  pub canonical_fields : Option Fields
  pub fields_by_partition : Assoc ℕ Fields
  pub partition_row_mappers : Assoc ℕ (Vals → Option Vals)
  pub waiting : List ℕ
  pub pending : ℕ

-- The loop goes on, or `queryCluster` returns.
pub data Outcome (S E : Type 0) : Type 0 where
  going : Progress S E → Outcome S E
  done : S → QueryStats → Option E → Outcome S E

pub next :
    {S E : Type 0} → Outcome S E → (Progress S E → Option (Outcome S E)) → Option (Outcome S E)
next (going q) continue = continue q
next (done s st err) continue = some (done s st err)

-- `missingPartitions[partition] = true`, and the order of `finalStats`.
pub added : ℕ → List ℕ → List ℕ
added p [] = p ∷ []
added p (m ∷ ms) =
    let rest = added p ms in if p == m then m ∷ ms else if ltb p m then p ∷ (m ∷ ms) else m ∷ rest

-- `delete(resultsByPartition, result.partition)`.
pub without : ℕ → List ℕ → List ℕ
without p [] = []
without p (w ∷ ws) = let rest = without p ws in if p == w then ws else w ∷ rest

-- The keys of `resultsByPartition` before the loop.
unfoldable pub partitions_below : ℕ → List ℕ
partitions_below zero = []
partitions_below (suc n) = n ∷ partitions_below n

abbrev is_zero : ℤ → Bool
is_zero (pos n) = n == 0
is_zero (negsuc n) = false

-- `finish`, of a partition without an error.
pub finish : ℤ → QueryStats → QueryStats
finish mark stats = record stats {
  num_successful_partitions = suc stats.num_successful_partitions;
  lowest_high_water_mark =
      if is_zero stats.lowest_high_water_mark || ltb_ℤ mark stats.lowest_high_water_mark
      then mark
      else stats.lowest_high_water_mark;
  highest_high_water_mark =
      if ltb_ℤ stats.highest_high_water_mark mark then mark else stats.highest_high_water_mark;
}

module _ {S E : Type 0} where
  -- `fail`.
  pub fail : ℕ → Option E → Progress S E → Progress S E
  unfolding added
  fail p err q = record q {
    final_err = if is_some q.final_err then err else q.final_err;
    missing = added p q.missing;
  }

  -- `finalStats`.
  pub final_stats : Progress S E → QueryStats
  final_stats q = record q.stats { missing_partitions = q.missing }

  -- The variables before the loop.
  unfoldable pub start : ℕ → S → Progress S E
  unfolding partitions_below
  start n s = record {
    client = s;
    final_err = none;
    missing = [];
    stats = record {
      num_partitions = n;
      num_successful_partitions = 0;
      lowest_high_water_mark = pos 0;
      highest_high_water_mark = pos 0;
      missing_partitions = [];
    };
    stopped = false;
    canonical_fields = none;
    fields_by_partition = [];
    partition_row_mappers = [];
    waiting = partitions_below n;
    pending = n;
  }

  -- Where `onFields` fails.
  pub announced : ℕ → S × Option E → Progress S E → Progress S E
  unfolding fail
  announced p (s, none) q = record q { client = s }
  announced p (s, some e) q = fail p (some e) (record q { client = s })

  -- The fields of a partition, beside those that are canonical by now.
  pub mapped : ℕ → Fields → Fields → Progress S E → Progress S E
  mapped p canonical fields q = record q {
    canonical_fields = some canonical;
    fields_by_partition = put p fields q.fields_by_partition;
    partition_row_mappers = put p (partition_row_mapper canonical fields) q.partition_row_mappers;
  }

  -- After the callback for a row.
  pub after_row : ℕ → S × Bool × Option E → Progress S E → Progress S E
  unfolding fail
  after_row p (s, more, some e) q = record q { client = s }
  after_row p (s, true, none) q = record q { client = s }
  after_row p (s, false, none) q = record (fail p none (record q { client = s })) { stopped = true }

  -- After the callback for a flat row.
  pub after_flat_row : ℕ → S × Bool × Option E → Progress S E → Outcome S E
  unfolding fail final_stats
  after_flat_row p (s, more, some e) q = done s (final_stats (fail p (some e) q)) (some e)
  after_flat_row p (s, true, none) q = going (record q { client = s })
  after_flat_row p (s, false, none) q = going (record q { client = s; stopped = true })

  -- The final result of a partition.
  pub reported : ℕ → ℤ → Option E → Progress S E → Progress S E
  unfolding fail finish without
  reported p mark none q = record q {
    stats = finish mark q.stats;
    waiting = without p q.waiting;
    pending = q.pending - 1;
  }
  reported p mark (some e) q = record (fail p (some e) q) {
    waiting = without p q.waiting;
    pending = q.pending - 1;
  }

  module _ {Row : Type 0} (c : Client S E Row) (exceeded : E) where
    pub take_fields : Option Fields → ℕ → Fields → Progress S E → Progress S E
    unfolding announced mapped
    take_fields (some canonical) p fields q = mapped p canonical fields q
    take_fields none p fields q =
        mapped p fields fields (announced p (c.on_fields q.client fields) q)

    -- A mapper that is missing is nil, and panics.
    pub take_row : ℕ → List ℕ → Vals → Progress S E → Option (Progress S E)
    unfolding after_row
    take_row p key vals q = if q.stopped || is_some q.final_err then some q else do
      mapper ← get p q.partition_row_mappers
      out ← mapper vals
      some (after_row p (c.on_row q.client (key, out)) q)

    pub take_flat_row : ℕ → Row → Progress S E → Outcome S E
    unfolding after_flat_row
    take_flat_row p row q =
        if q.stopped || is_some q.final_err
        then going q
        else after_flat_row p (c.on_flat_row q.client (row, get p q.fields_by_partition)) q

    -- The case of a result, by what is not nil in it.
    pub take_result :
        Option Fields
        → Option (List ℕ)
        → Option Row
        → RemoteResult E Row
        → Progress S E
        → Option (Outcome S E)
    unfolding take_fields take_row take_flat_row reported
    take_result (some fields) key row r q =
        some (going (take_fields q.canonical_fields r.partition fields q))
    take_result none (some key) row r q =
        take_row r.partition key r.vals q >>= λ q'. some (going q')
    take_result none none (some row) r q = some (take_flat_row r.partition row q)
    take_result none none none r q = some (going (reported r.partition r.high_water_mark r.err q))

    -- The loop over the partitions that are left when the time is over.
    pub fail_all : List ℕ → Progress S E → Progress S E
    unfolding fail
    fail_all [] q = q
    fail_all (p ∷ ps) q = fail_all ps (fail p (some exceeded) q)

    -- A round of the loop. Where Go panics there is none.
    pub round : Event E Row → Progress S E → Option (Outcome S E)
    unfolding take_result fail_all final_stats
    round (arrived r) q = take_result r.fields r.key r.flat_row r q
    round expired q =
        let q' = fail_all q.waiting q in some (done q'.client (final_stats q') q'.final_err)

    -- The loop, on what comes over the channels. Where it has not ended yet, it waits for more.
    unfoldable pub run : List (Event E Row) → Progress S E → Option (Outcome S E)
    unfolding round final_stats next
    run [] q = some (if q.pending == 0 then done q.client (final_stats q) q.final_err else going q)
    run (e ∷ es) q =
        if q.pending == 0
        then some (done q.client (final_stats q) q.final_err)
        else round e q >>= λ o. next o (λ q'. run es q')
