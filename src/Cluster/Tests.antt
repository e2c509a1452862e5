-- ===== src/Cluster/Tests.antt =====
-- cluster_query.go: the theorems at a query of two partitions.
use zenodb.Prelude.{
  ℕ, ◌+◌, ◌==◌, ◌≡◌, refl, true, false, Option, none, some, List, [], ◌∷◌, ◌⊎◌, arith,
  if◌then◌else◌, length, map, Yields,
}
use zenodb.Prelude.Int.{pos}
use zenodb.Cluster.Mapper.{
  Fields, partition_row_mapper, value_of, has_field, value_of-partition_row_mapper,
}
use zenodb.Cluster.Query.{
  RemoteResult, QueryStats, Event, arrived, Client, done, start, run, partitions_below,
}
use zenodb.Cluster.Query.Errors.{run-IsGiven}
use zenodb.Cluster.Query.Accounts.{has, answered, ReportOnce}
use zenodb.Cluster.Query.Accounts.Missing.{run-Accounts}
use zenodb.Cluster.Query.Ends.{Fits, finals}
use zenodb.Cluster.Query.Ends.Returns.{run-done}
use zenodb.Cluster.Sending.{on_fields, on_flat_row, Attempt, final_result, sent}
use zenodb.Cluster.Sending.Flat.{
  both_empty, from_left, AreFlatCalls, AreFlatAttempts, Sends, Sends-done,
}

abbrev requests_field : List ℕ
requests_field = b'r' ∷ []

abbrev errors_field : List ℕ
errors_field = b'e' ∷ []

abbrev these_fields : Fields
these_fields = requests_field ∷ errors_field ∷ []

abbrev other_fields : Fields
other_fields = errors_field ∷ requests_field ∷ []

value_of-partition_row_mapper_example :
    Yields (partition_row_mapper these_fields other_fields ((1 ∷ []) ∷ (2 ∷ []) ∷ [])) (λ r.
      (length r ≡ length these_fields)
      × ((f : List ℕ)
          → has_field f these_fields ≡ true
          → value_of f these_fields r ≡ value_of f other_fields ((1 ∷ []) ∷ (2 ∷ []) ∷ [])))
value_of-partition_row_mapper_example =
    value_of-partition_row_mapper these_fields other_fields ((1 ∷ []) ∷ (2 ∷ []) ∷ []) refl

-- A client that adds up the flat rows, and fails at one that is 13.
abbrev sums : Client ℕ ℕ ℕ
sums = record {
  on_fields = λ s fields. (s, none);
  on_row = λ s row. (s, true, none);
  on_flat_row = λ s row. (s + row.0, true, if row.0 == 13 then some 7 else none);
}

abbrev sends_fields : ℕ → RemoteResult ℕ ℕ
sends_fields p = record {
  partition = p;
  fields = some these_fields;
  key = none;
  vals = [];
  flat_row = none;
  high_water_mark = pos 0;
  err = none;
}

abbrev sends_flat : ℕ → RemoteResult ℕ ℕ
sends_flat row = record {
  partition = 0;
  fields = none;
  key = none;
  vals = [];
  flat_row = some row;
  high_water_mark = pos 0;
  err = none;
}

-- A row for which the client fails.
abbrev unlucky : List (Event ℕ ℕ)
unlucky = arrived (sends_fields 0) ∷ arrived (sends_flat 13) ∷ []

abbrev unlucky_stats : QueryStats
unlucky_stats = record {
  num_partitions = 2;
  num_successful_partitions = 0;
  lowest_high_water_mark = pos 0;
  highest_high_water_mark = pos 0;
  missing_partitions = 0 ∷ [];
}

run-IsGiven_example : (row : ℕ × Option Fields) × (t : ℕ) × ((sums.on_flat_row t row).2 ≡ some 7)
unfolding run start
run-IsGiven_example = run-IsGiven sums 1 2 0 13 unlucky unlucky_stats 7 refl

-- Partition 0 has no handler, and partition 1 answers.
abbrev half : List (Event ℕ ℕ)
half =
    arrived (sends_fields 1)
    ∷ arrived (final_result 0 (pos 0) (some 9))
    ∷ arrived (final_result 1 (pos 5) none)
    ∷ []

abbrev half_stats : QueryStats
half_stats = record {
  num_partitions = 2;
  num_successful_partitions = 1;
  lowest_high_water_mark = pos 5;
  highest_high_water_mark = pos 5;
  missing_partitions = 0 ∷ [];
}

run-Accounts_example : (has 0 half_stats.missing_partitions ≡ true) ⊎ (answered 0 half ≡ true)
unfolding ReportOnce run start final_result partitions_below answered
run-Accounts_example =
    run-Accounts sums 1 2 0 0 0 half half_stats (omega arith) (refl, (refl, tt)) refl

run-done_example :
    (s' : ℕ) × (st : QueryStats) × (err : Option ℕ) × (run sums 1 half (start 2 0)
      ≡ some (done s' st err))
unfolding Fits finals final_result
run-done_example = run-done sums 1 2 2 0 half (refl, (tt, (tt, tt))) (omega arith)

-- Each partition fails once, is tried again, and sends a row.
abbrev two_attempts : ℕ → List (Attempt ℕ ℕ)
two_attempts p =
    record { calls = []; highest_high_water_mark = none; err = some (5, true) }
    ∷ record {
      calls = on_fields these_fields ∷ on_flat_row none false p ∷ [];
      highest_high_water_mark = some (pos 3);
      err = none;
    }
    ∷ []

two_attempts-AreFlat : (p : ℕ) → AreFlatAttempts 2 (two_attempts p)
unfolding AreFlatAttempts AreFlatCalls
two_attempts-AreFlat p = (tt, ((refl, tt), tt))

abbrev results : List (RemoteResult ℕ ℕ)
results = sent 0 8 (two_attempts 0)

one-Sends : Sends 8 two_attempts 1 results
unfolding Sends sent
one-Sends = ([], refl, from_left (from_left (from_left both_empty)))

Sends-done_example :
    (s' : ℕ) × (st : QueryStats) × (err : Option ℕ) × (run sums 1 (map arrived results) (start 1 0)
      ≡ some (done s' st err))
Sends-done_example = Sends-done sums 1 8 2 1 0 two_attempts results two_attempts-AreFlat one-Sends
