-- ===== src/Metrics.antt =====
-- metrics/metrics.go: the followers that are connected to the leader, and their number by partition.
-- `FollowerID` is of common/common.go. A Go map is an association list, nil is none, and a nil pointer
-- that is followed panics, which is none too.
pub mod Entries
pub mod Counts
mod Tests
use zenodb.Prelude.{
  ℕ, ◌+◌, ◌≡◌, ◌↔◌, Bool, true, false, ◌&&◌, Option, none, some, List, [], map, arith, ◌==◌, ==_iff,
  if◌then◌else◌, length, refl, ◌>>=◌,
}
use zenodb.Prelude.Int.{ℤ, pos, negsuc, ◌+ℤ◌, ◌-ℤ◌}
use zenodb.Prelude.Assoc.{Key, Assoc, get, put, delete, int_key}

-- `FollowerID`, whose fields are ints that only serve as keys.
pub record FollowerId : Type 0 where
  pub partition : ℕ
  pub number : ℕ

same_follower : FollowerId → FollowerId → Bool
same_follower i j = (i.partition == j.partition) && (i.number == j.number)

same_follower_iff : (i j : FollowerId) → (same_follower i j ≡ true) ↔ (i ≡ j)
unfolding same_follower
same_follower_iff i j = ground (arith, ==_iff i.partition j.partition, ==_iff i.number j.number)

instance pub follower_key : Key FollowerId
unfolding same_follower
follower_key = record { same = same_follower; same_iff = same_follower_iff }

-- `LeaderStats`, with the bytes of a time in text.
pub record LeaderStats : Type 0 where
  pub num_partitions : ℕ
  pub connected_partitions : ℕ
  pub connected_followers : ℕ
  pub currently_reading_wal : List ℕ

pub record FollowerStats : Type 0 where
  pub follower_id : FollowerId
  pub queued : ℕ

pub record PartitionStats : Type 0 where
  pub partition : ℕ
  pub num_followers : ℤ

-- The variables of the package.
pub record Metrics : Type 0 where
  pub leader : LeaderStats
  pub followers : Assoc FollowerId FollowerStats
  pub partitions : Assoc ℕ PartitionStats

-- `reset`.
pub reset : Metrics
reset = record {
  leader = record {
    num_partitions = 0;
    connected_partitions = 0;
    connected_followers = 0;
    currently_reading_wal = [];
  };
  followers = [];
  partitions = [];
}

-- `SetNumPartitions` and `CurrentlyReadingWAL`, the latter of an offset's time as `Format` prints it.
pub set_num_partitions : ℕ → Metrics → Metrics
set_num_partitions n m = record m { leader = record m.leader { num_partitions = n } }

pub currently_reading : List ℕ → Metrics → Metrics
currently_reading time m = record m { leader = record m.leader { currently_reading_wal = time } }

-- `getFollowerStats`: the stats of a follower, new ones if it has none.
pub get_follower_stats : FollowerId → Metrics → FollowerStats × Metrics
get_follower_stats id m =
    let new : FollowerStats = record { follower_id = id; queued = 0 } in
    elim (get id m.followers) [
      | some fs ↦ (fs, m)
      | none ↦ (new, record m { followers = put id new m.followers })
    ]

-- `FollowerJoined`.
pub num_of : Option PartitionStats → ℤ
num_of none = pos 0
num_of (some ps) = ps.num_followers

pub follower_joined : FollowerId → Metrics → Metrics
unfolding get_follower_stats num_of
follower_joined id m =
    let m' = (get_follower_stats id m).1 in
    let n = num_of (get id.partition m'.partitions) +ℤ pos 1 in
    record m' {
      partitions =
          put id.partition (record { partition = id.partition; num_followers = n }) m'.partitions;
    }

-- What `FollowerFailed` makes of the partitions, one of whose followers it has deleted.
pub is_zero : ℤ → Bool
is_zero (pos n) = n == 0
is_zero (negsuc n) = false

pub leave : ℕ → Assoc ℕ PartitionStats → Option (Assoc ℕ PartitionStats)
unfolding is_zero
leave p partitions = elim (get p partitions) [
  | none ↦ none
  | some ps ↦
      let n = ps.num_followers -ℤ pos 1 in
      some (
        if is_zero n
        then delete p partitions
        else put p (record ps { num_followers = n }) partitions)
]

-- `FollowerFailed`.
pub follower_failed : FollowerId → Metrics → Option Metrics
unfolding leave
follower_failed id m = elim (get id m.followers) [
  | none ↦ some m
  | some fs ↦
      (leave fs.follower_id.partition m.partitions >>= λ partitions.
      some (record m { followers = delete id m.followers; partitions = partitions }))
]

-- `QueuedForFollower`.
pub queued_for_follower : FollowerId → ℕ → Metrics → Metrics
queued_for_follower id n m = elim (get id m.followers) [
  | none ↦ m
  | some fs ↦ record m { followers = put id (record fs { queued = n }) m.followers }
]

-- `Stats`.
pub record Stats : Type 0 where
  pub leader : LeaderStats
  pub followers : List FollowerStats
  pub partitions : List PartitionStats

-- `GetStats`, on the sorts of the library, and the metrics after it: the leader is shared.
pub get_stats :
    (List FollowerStats → List FollowerStats)
    → (List PartitionStats → List PartitionStats)
    → Metrics
    → Stats × Metrics
get_stats sort_followers sort_partitions m =
    let leader : LeaderStats = record m.leader {
      connected_partitions = length m.partitions;
      connected_followers = length m.followers;
    } in
    (
      record {
        leader = leader;
        followers = sort_followers (map (λ e. e.1) m.followers);
        partitions = sort_partitions (map (λ e. e.1) m.partitions);
      },
      record m { leader = leader },
    )
