-- ===== src/Inserts/Tests.antt =====
-- insert.go: a point, and the theorems at concrete inputs.
use mathlib.Core.List.{Perm}
use zenodb.Prelude.{ℕ, ◌+◌, ◌*◌, ◌≡◌, refl, true, false, none, some, List, [], ◌∷◌, arith, length}
use zenodb.Prelude.Int.{ℤ, pos, pos_part}
use zenodb.Encoding.Time.{Time, second}
use zenodb.Following.{Hashing, partition_for}
use zenodb.Inserts.{
  to_wal, insert_raw, Val, whole, many, unsupported, Table, Follower, Done, meets, group_key,
  point_of, inserts_of, split_values, included, named, do_insert, relevant, insert,
}
use zenodb.Inserts.Entries.{insert-insert_raw}
use zenodb.Inserts.Values.{all_values, values_sent, do_insert-values}

-- Dimensions as bytes, of which the number is the hash.
abbrev lengths : Hashing ℕ
lengths = record { Dims = List ℕ; bytes = λ d. d; get_bytes = λ d name. d; sum32 = λ b. length b }

abbrev as_dims : List ℕ → List ℕ
as_dims b = b

abbrev float_of : ℤ → ℕ
float_of i = pos_part i

-- Every point has two values for a and one for b.
abbrev two_and_one : List ℕ → List (List ℕ × Val ℕ)
two_and_one b =
    (b'a' ∷ [], many (1 ∷ 2 ∷ [])) ∷ (b'b' ∷ [], whole (pos 5)) ∷ (b'c' ∷ [], unsupported) ∷ []

abbrev table : Table ℕ
table = record { before = 7; condition = none; group_by = none; partition_by = [] }

abbrev follower : Follower
follower = record { partition = 1; num_partitions = 2 }

-- 2015, in nanoseconds since the start of year 1.
abbrev instant : Time
instant = 63555000000 * second + 7

abbrev at_nine : ℕ
at_nine = 9

abbrev done : Done ℕ ℕ
done = record {
  sent =
      record {
        key = some (4 ∷ []);
        ts = instant;
        vals = (b'a' ∷ [], 1) ∷ (b'b' ∷ [], 5) ∷ [];
        metadata = 4 ∷ [];
        offset = 9;
        source = pos 0;
      }
      ∷ record {
        key = some (4 ∷ []);
        ts = instant;
        vals = (b'a' ∷ [], 2) ∷ [];
        metadata = 4 ∷ [];
        offset = 9;
        source = pos 0;
      }
      ∷ [];
  ok = true;
  filtered = 0;
  inserted = 2;
}

do_insert-done :
    do_insert lengths as_dims float_of two_and_one table instant (4 ∷ []) (6 ∷ []) at_nine (pos 0)
    ≡ some done
unfolding do_insert meets split_values included named inserts_of point_of group_key
do_insert-done = refl

do_insert-values_example : Perm (values_sent done.sent) (all_values float_of (two_and_one (6 ∷ [])))
do_insert-values_example =
    do_insert-values lengths as_dims float_of two_and_one table instant (4 ∷ []) (6 ∷ []) at_nine
      (pos 0) done do_insert-done refl

insert-insert_raw_example :
    (entry : List ℕ) × (insert_raw false true none instant (4 ∷ []) (6 ∷ []) ≡ some (to_wal entry))
    × (insert lengths as_dims float_of two_and_one table (some follower) entry at_nine (pos 0)
        ≡ do_insert lengths as_dims float_of two_and_one table instant
            (4 ∷ [])
            (6 ∷ [])
            at_nine
            (pos 0))
unfolding relevant partition_for
insert-insert_raw_example =
    insert-insert_raw lengths as_dims float_of two_and_one table (some follower) instant (4 ∷ [])
      (6 ∷ []) at_nine (pos 0) (omega arith) (omega arith) (omega arith) (omega arith) refl
