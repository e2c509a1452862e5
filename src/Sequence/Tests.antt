-- ===== src/Sequence/Tests.antt =====
-- encoding: tests, and the theorems at concrete sequences.
use zenodb.Prelude.{
  max, take, ℕ, ◌+◌, ◌-◌, ◌*◌, ◌/◌, ◌≡◌, ◌≢◌, refl, true, none, some, List, [], ◌∷◌, ◌++◌, arith,
  length, drop, replicate, Yields,
}
use zenodb.Prelude.Int.{pos}
use zenodb.Encoding.Time.{Time, second, unix_epoch, header}
use zenodb.Encoding.Until.{Quotients, round_time_until_up, round_up_zero}
use zenodb.Expr.{encoded_width}
use zenodb.Expr.Samples.{words, point, sum_a, sum_a-IsSound, encoded_width-sum_a, is_constant-sum_a}
use zenodb.Expr.Buffer.{Updated, update}
use zenodb.Sequence.Header.{until-header, length-header_append}
use zenodb.Sequence.{num_periods}
use zenodb.Sequence.Merging.{merge_sequences}
use zenodb.Sequence.Merging.Extent.{merge_sequences_lem}
use zenodb.Sequence.Periods.{period}
use zenodb.Sequence.Values.{update_value_at, value_at}
use zenodb.Sequence.Values.Slots.{update_value_at_lem}

abbrev quotients : Quotients
quotients = record {
  floor = λ a b. a / b;
  ceil = λ a b. (a + (b - 1)) / b;
  floor_exact = λ a b h i j. refl;
  ceil_exact = λ a b h i j. refl;
}

-- Six accumulators of one byte, a second each, the newest of which ends ten seconds after the epoch.
abbrev end_time : Time
end_time = unix_epoch + 10 * second

abbrev accumulators : List ℕ
accumulators = 1 ∷ 2 ∷ 3 ∷ 4 ∷ 5 ∷ 6 ∷ []

-- Two periods of SUM(a).
abbrev two_periods : List ℕ
two_periods = replicate 26 0

update_value_at_lem_example : Yields (update_value_at words point none 1 sum_a two_periods) (λ r.
    (length r ≡ length two_periods)
    × ((j : ℕ)
        → j ≢ 1
        → period (encoded_width words sum_a) j (drop 8 r)
          ≡ period (encoded_width words sum_a) j (drop 8 two_periods))
    × ((u : Updated words) × (update words point none sum_a
            (drop (1 * encoded_width words sum_a + 8) two_periods)
          ≡ some u)
        × (u.updated ≡ true → value_at words (pos 1) sum_a r ≡ some (u.value, true))))
update_value_at_lem_example =
    update_value_at_lem words point none 1 sum_a two_periods sum_a-IsSound tt is_constant-sum_a
      (omega (arith, encoded_width-sum_a))

-- Three periods of SUM(a), and two that end two periods before.
abbrev three_later : List ℕ
three_later = header end_time ++ replicate 27 0

abbrev two_earlier : List ℕ
two_earlier = header (end_time - 2 * second) ++ replicate 18 0

round_no_bound : round_time_until_up quotients 0 second end_time ≡ 0
round_no_bound = round_up_zero quotients second end_time

merge_sequences_lem_example :
    Yields (merge_sequences words quotients sum_a second 0 three_later two_earlier) (λ out.
      (take 8 out ≡ take 8 three_later)
      × (num_periods (encoded_width words sum_a) out ≡ some (max 3 (2 + 2))))
merge_sequences_lem_example =
    merge_sequences_lem words sum_a sum_a-IsSound end_time second 3 2 2 (omega arith) (omega arith)
      (omega arith) (omega arith) (omega arith) (omega arith) (omega (arith, encoded_width-sum_a))
      quotients 0 three_later two_earlier (omega (arith, encoded_width-sum_a))
      (omega (arith, encoded_width-sum_a, length-header_append end_time (replicate 27 0)))
      (omega
        (arith, encoded_width-sum_a, length-header_append (end_time - 2 * second) (replicate 18 0)))
      (until-header end_time (replicate 27 0) (omega arith))
      (until-header (end_time - 2 * second) (replicate 18 0) (omega arith))
      (omega (arith, round_no_bound))
