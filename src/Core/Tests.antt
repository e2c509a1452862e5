-- ===== src/Core/Tests.antt =====
-- core: the theorems at concrete rows.
use zenodb.Prelude.{
  false, none, some, arith, ℕ, ◌≡◌, refl, true, List, [], ◌∷◌, ◌++◌, ltb, length, take, drop,
  if◌then◌else◌,
}
use zenodb.Core.{OnRow, Included, noop, failed, left_out, kept, limit_row, offset_row}
use zenodb.Core.Compare.{asserted, Scalars, Value, before, int64, whole, compare}
use zenodb.Core.Compare.Swap.{IsComparable}
use zenodb.Prelude.Int.{pos, negsuc}
use zenodb.Core.Sort.{named, OrderBy, FlatRow, less}
use zenodb.Core.Sort.Strict.{less_asym}
use zenodb.Core.Paging.{feed, end_of, below_both, page_lem}

-- A callback that collects rows. A clock that ticks with each of them.
abbrev collect : OnRow (List ℕ) ℕ ℕ
collect s row = (s ++ (row ∷ []), true, none)

abbrev now : List ℕ → ℕ
now s = length s

abbrev rows : List ℕ
rows = 5 ∷ 3 ∷ 8 ∷ 2 ∷ []

abbrev small : ℕ → Included ℕ ℕ
small row = if ltb 6 row then failed row else if ltb row 4 then left_out else kept row

page_lem_example :
    below_both now 100 collect
      (feed (offset_row (λ t. now t.1) 100 noop 1 (limit_row now 100 2 collect)) rows (0, (0, [])))
    ≡ end_of now 100 collect (feed collect (take 2 (drop 1 rows)) [])
page_lem_example = page_lem now 100 collect 1 2 rows []

-- Numbers for what is not an integer.
abbrev numbers : Scalars
numbers = record {
  Float32 = ℕ;
  Float64 = ℕ;
  Text = ℕ;
  Other = ℕ;
  less_32 = ltb;
  less_64 = ltb;
  less_text = ltb;
  asym_32 = λ a b h. ground (arith, h);
  asym_64 = λ a b h. ground (arith, h);
  asym_text = λ a b h. ground (arith, h);
}

abbrev seven : Value numbers
seven = whole int64 (pos 7)

abbrev minus_two : Value numbers
minus_two = whole int64 (negsuc 1)

abbrev early : FlatRow numbers
early = record { ts = pos 1; get = λ name. seven }

abbrev late : FlatRow numbers
late = record { ts = pos 2; get = λ name. minus_two }

abbrev by_x : List OrderBy
by_x = record { field = named "x"; descending = false } ∷ []

late_first : less numbers by_x late early ≡ some true
unfolding less compare
late_first = refl

less_asym_example : less numbers by_x early late ≡ some false
unfolding IsComparable asserted
less_asym_example = less_asym numbers by_x late early (refl, tt) (refl, tt) late_first

x_before : compare numbers minus_two seven ≡ some before
unfolding compare
x_before = refl
