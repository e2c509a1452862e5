-- ===== src/Following/Tests.antt =====
-- cluster_follow.go: the theorems at concrete followers and entries.
use zenodb.Prelude.{ℕ, ◌≡◌, refl, Bool, true, Option, some, List, [], ◌∷◌, Yields}
use zenodb.Prelude.Assoc.{int_key, get}
use zenodb.Metrics.{FollowerId}
use zenodb.Offsets.Samples.{numbers}
use zenodb.Following.{TableSpec, PartitionResult, PartitionsResult, Partitions, Hashing}
use zenodb.Following.Dispatch.{dispatch, Agree, dispatch-again}
use zenodb.Following.Conditions.{
  map_partition_request, plain_partitions, is_met, AllAreTold, AreTold, map_partition_request_lem,
}

-- Two followers of a partition, at offsets 5 and 9, in a table whose condition is true.
abbrev at_five : FollowerId
at_five = record { partition = 1; number = 1 }

abbrev at_nine : FollowerId
at_nine = record { partition = 1; number = 2 }

abbrev table : TableSpec numbers ℕ Bool
table = record {
  condition = some true;
  condition_text = 4;
  followers_by_partition =
      (
        1,
        (at_five, record { follower_id = at_five; offset = 5 })
            ∷ (at_nine, record { follower_id = at_nine; offset = 9 })
            ∷ [],
      )
      ∷ [];
}

abbrev partitions : Partitions numbers ℕ Bool
partitions = (0, record { keys = []; tables = (7, table) ∷ [] }) ∷ []

abbrev result : PartitionsResult numbers ℕ Bool
result = (0, record { pid = 1; where_passed = (7, true) ∷ [] }) ∷ []

result-Agree : Agree numbers result result partitions
unfolding Agree get
result-Agree = ((result_of, result_of, refl, refl, refl), tt)
  where
    result_of : PartitionResult numbers ℕ Bool
    result_of = record { pid = 1; where_passed = (7, true) ∷ [] }

dispatch-again_example :
    Yields
      (dispatch numbers 8 result partitions)
      (λ d. Yields (dispatch numbers 8 result d.1) (λ d'. d'.0 ≡ []))
dispatch-again_example = dispatch-again numbers 8 8 result result partitions refl result-Agree

-- A hash that is always 3.
abbrev hashing : Hashing ℕ
hashing = record { Dims = List ℕ; bytes = λ d. d; get_bytes = λ d n. n ∷ []; sum32 = λ b. 3 }

abbrev value : ℕ → Option Bool
value n = some true

partitions-AllAreTold : AllAreTold numbers some value partitions
unfolding AllAreTold AreTold is_met
partitions-AllAreTold = ((refl, tt), tt)

map_partition_request_lem_example :
    map_partition_request numbers some hashing 2 (1 ∷ []) partitions
    ≡ plain_partitions numbers some hashing 2 (1 ∷ []) partitions []
map_partition_request_lem_example =
    map_partition_request_lem numbers some value hashing 2 (1 ∷ []) partitions partitions-AllAreTold
