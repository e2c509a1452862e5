-- ===== src/Core/Flatten/Tests.antt =====
-- core/flatten.go: the theorem at a row of one column with two periods.
use zenodb.Prelude.{
  ℕ, suc, ◌+◌, ◌-◌, ◌*◌, ◌/◌, ◌≡◌, refl, true, none, some, List, [], ◌∷◌, arith, Yields,
}
use zenodb.Prelude.Int.{pos}
use zenodb.Encoding.Time.{
  Time, second, unix_epoch, time_from_bytes, time_int_from_bytes, time_from_int,
}
use zenodb.Encoding.Duration.{add_back, add_ahead, since, ahead_of}
use zenodb.Encoding.Binary.{uint64, to_int64, to_word}
use zenodb.Encoding.Until.{Quotients, round_time_until_up}
use zenodb.Expr.{test, encoded_width, is_constant}
use zenodb.Expr.Buffer.{get}
use zenodb.Expr.Cell.{load}
use zenodb.Expr.Samples.{words, word, sum_a}
use zenodb.Sequence.{Sequence, until, num_periods, as_of, quotient}
use zenodb.Sequence.Values.{value_at_time, value_at, value_at_offset}
use zenodb.Core.{OnRow, noop}
use zenodb.Core.Paging.{feed}
use zenodb.Core.Flatten.{Field, FlatRow, Range, values_at, range_of, flatten_row}
use zenodb.Core.Flatten.Periods.{times, rows_at, guarded, end_of}
use zenodb.Core.Flatten.Rows.{StartLate, IsLate, Within, flatten_row_lem}

abbrev quotients : Quotients
quotients = record {
  floor = λ a b. a / b;
  ceil = λ a b. (a + (b - 1)) / b;
  floor_exact = λ a b h i j. refl;
  ceil_exact = λ a b h i j. refl;
}

abbrev end_time : Time
end_time = unix_epoch + 10 * second

-- The newer period has the value 5, the older one none.
abbrev column : Sequence
column =
    0
    ∷ 0
    ∷ 0
    ∷ 2
    ∷ 84
    ∷ 11
    ∷ 228
    ∷ 0
    ∷ (1 ∷ 0 ∷ 0 ∷ 0 ∷ 0 ∷ 0 ∷ 0 ∷ 0 ∷ 5 ∷ 0 ∷ 0 ∷ 0 ∷ 0 ∷ 0 ∷ 0 ∷ 0 ∷ 0 ∷ 0 ∷ [])

abbrev fields : List (Field words)
fields = record { name = "a"; expr = sum_a } ∷ []

abbrev range : Range
range = record { until = end_time; as_of = end_time - 2 * second }

range_lem :
    range_of words second fields (column ∷ []) (record { until = 0; as_of = 0 }) ≡ some range
unfolding range_of num_periods until as_of quotient time_from_bytes time_int_from_bytes uint64
    time_from_int to_int64 encoded_width add_back
range_lem = refl

abbrev rows : List (FlatRow words)
rows =
    record { ts = pos (10 * second); key = b'k' ∷ []; values = word 5 ∷ []; fields = fields } ∷ []

rows_lem :
    rows_at words quotients second fields
      (b'k' ∷ [])
      (column ∷ [])
      (times second (suc ((range.until - range.as_of) / second)) range.as_of)
    ≡ some rows
unfolding rows_at times to_word value_at_time value_at value_at_offset until time_from_bytes
    time_int_from_bytes uint64 time_from_int to_int64 encoded_width is_constant round_time_until_up
    quotient get load test values_at add_back add_ahead since ahead_of
rows_lem = refl

column-StartLate : StartLate words second fields (column ∷ [])
unfolding StartLate IsLate num_periods until time_from_bytes time_int_from_bytes uint64
    time_from_int to_int64 encoded_width quotient
column-StartLate = (λ n u h k. (ground (arith, h, k), ground (arith, h)), tt)

-- A client that counts rows.
abbrev count_rows : OnRow ℕ ℕ (FlatRow words)
count_rows s row = (suc s, true, none)

flatten_row_lem_example :
    Within words second range fields (column ∷ [])
    × Yields
        (flatten_row words quotients second
          (λ s. s)
          1
          noop
          fields
          count_rows
          (b'k' ∷ [])
          (column ∷ [])
          0)
        (λ o.
          end_of words quotients second fields
            (b'k' ∷ [])
            (column ∷ [])
            (λ s. s)
            1
            noop
            count_rows
            o
          ≡ guarded words quotients second fields
              (b'k' ∷ [])
              (column ∷ [])
              (λ s. s)
              1
              noop
              count_rows
              (feed count_rows rows 0))
flatten_row_lem_example =
    flatten_row_lem words second quotients fields (b'k' ∷ []) (column ∷ []) (λ s. s) 1 noop
      count_rows range rows 0 (omega arith) column-StartLate range_lem rows_lem
