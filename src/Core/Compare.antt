-- ===== src/Core/Compare.antt =====
-- core/compare.go: the order of the values of rows. Where Go panics on a type assertion there is none.
pub mod Swap
use zenodb.Prelude.{ℕ, ◌≡◌, Bool, true, false, Option, none, some, List, ◌==◌, if◌then◌else◌}
use zenodb.Prelude.Int.{ℤ, ltb_ℤ}

-- The types of whole numbers in the switch, and those of floats.
pub data Whole : Type 0 where
  byte uint16 uint32 uint64 uint int8 int16 int32 int64 int : Whole

pub data Order : Type 0 where
  before same after : Order

abbrev pub number : Whole → ℕ
number byte = 0
number uint16 = 1
number uint32 = 2
number uint64 = 3
number uint = 4
number int8 = 5
number int16 = 6
number int32 = 7
number int64 = 8
number int = 9

-- The type that b is asserted to have: for a `uint` it is `uint64`.
unfoldable pub asserted : Whole → Whole
asserted byte = byte
asserted uint16 = uint16
asserted uint32 = uint32
asserted uint64 = uint64
asserted uint = uint64
asserted int8 = int8
asserted int16 = int16
asserted int32 = int32
asserted int64 = int64
asserted int = int

-- Floats and strings with Go's "less", and values of other types, which all compare as equal.
pub record Scalars : Type 1 where
  pub Float32 : Type 0
  pub Float64 : Type 0
  pub Text : Type 0
  pub Other : Type 0
  pub less_32 : Float32 → Float32 → Bool
  pub less_64 : Float64 → Float64 → Bool
  pub less_text : Text → Text → Bool
  pub asym_32 : (a b : Float32) → less_32 a b ≡ true → less_32 b a ≡ false
  pub asym_64 : (a b : Float64) → less_64 a b ≡ true → less_64 b a ≡ false
  pub asym_text : (a b : Text) → less_text a b ≡ true → less_text b a ≡ false

-- `interface{}`, where time is in nanoseconds.
pub data Value (x : Scalars) : Type 0 where
  absent : Value x
  truth : Bool → Value x
  whole : Whole → ℤ → Value x
  single : x.Float32 → Value x
  double : x.Float64 → Value x
  text : x.Text → Value x
  instant : ℤ → Value x
  other : x.Other → Value x

-- `if ta > tvb { return 1 }; if ta < tvb { return -1 }`, then 0.
unfoldable pub by_less : {A : Type 0} → (A → A → Bool) → A → A → Order
by_less less a b = if less b a then after else if less a b then before else same

-- For bool.
unfoldable pub by_truth : Bool → Bool → Order
by_truth true false = after
by_truth false true = before
by_truth true true = same
by_truth false false = same

module _ (x : Scalars) where
  open x use {less_32, less_64, less_text}

  -- `compare`.
  unfoldable pub compare : Value x → Value x → Option Order
  unfolding by_less by_truth asserted
  compare absent absent = some same
  compare absent _ = some before
  compare _ absent = some after
  compare (truth a) (truth b) = some (by_truth a b)
  compare (whole k a) (whole l b) =
      if number (asserted k) == number l then some (by_less ltb_ℤ a b) else none
  compare (single a) (single b) = some (by_less less_32 a b)
  compare (double a) (double b) = some (by_less less_64 a b)
  compare (text a) (text b) = some (by_less less_text a b)
  compare (instant a) (instant b) = some (by_less ltb_ℤ a b)
  compare (other a) _ = some same
  compare _ _ = none
