-- ===== src/Rowstore/Rows/Remaining.antt =====
-- row_store.go: what a row leaves of the file.
use zenodb.Prelude.{
  ℕ, ◌-◌, ◌≤◌, ◌≡◌, refl, List, [], ◌∷◌, arith, length, length-drop, drop, take, ◌⊎◌, inl, inr,
  Option-cases,
}
use zenodb.Encoding.Binary.{uint64}
use zenodb.Rowstore.Rows.{
  RowError, Row, Next, end_of_file, row, broken, panicked, next_row, row_of, read_key,
}

-- What is left of the file, when it goes on with a row.
pub left_of : Next → ℕ
left_of (row r rest) = length rest
left_of m = 0

pub left_of-row : (r : Row) (rest : List ℕ) → left_of (row r rest) ≡ length rest
unfolding left_of
left_of-row r rest = refl

left_of-row_of : (n : ℕ) (file : List ℕ) → left_of (row_of n file) ≤ length file - n
unfolding row_of left_of
left_of-row_of n file = elim (Option-cases (read_key (drop 8 (take n file)))) [
  | inl e ↦ rw (row_of, e, left_of) (omega arith)
  | inr ((key, rest), e) ↦ rw (row_of, e, left_of) (omega (arith, length-drop n file))
]

-- A row takes at least the eight bytes of its length off the file.
pub left_of-next_row : (b : ℕ) (file : List ℕ) → left_of (next_row (b ∷ file)) ≤ length file
unfolding next_row left_of
left_of-next_row b file = elim (Option-cases (uint64 (b ∷ file))) [
  | inl e ↦ rw (next_row, e, left_of) (omega arith)
  | inr (n, e) ↦ rw (next_row, e) (ground (arith, left_of-row_of n (b ∷ file)))
]

pub Next-cases :
    (m : Next)
    → (m ≡ end_of_file)
      ⊎ ((e : RowError) × (m ≡ broken e))
      ⊎ (m ≡ panicked)
      ⊎ ((r : Row) × (rest : List ℕ) × (m ≡ row r rest))
Next-cases end_of_file = inl refl
Next-cases (broken e) = inr (inl (e, refl))
Next-cases panicked = inr (inr (inl refl))
Next-cases (row r rest) = inr (inr (inr (r, rest, refl)))

pub next_row-nil : next_row [] ≡ end_of_file
unfolding next_row
next_row-nil = refl
