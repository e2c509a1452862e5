-- ===== src/Offsets/Samples.antt =====
-- common/common.go: offsets for the tests.
use zenodb.Prelude.{ℕ, ◌≡◌, true, arith, ltb}
use zenodb.Offsets.{WalOffset}

pub after_trans_ℕ : (a b c : ℕ) → ltb b a ≡ true → ltb c b ≡ true → ltb c a ≡ true
after_trans_ℕ a b c p q = ground arith

-- Offsets as numbers, of which 0 is nil, and which are their own times.
abbrev pub numbers : WalOffset
numbers = record {
  Offset = ℕ;
  nil_offset = 0;
  after = λ a b. ltb b a;
  ts = λ a. a;
  after_irrefl = λ a. ground arith;
  after_trans = after_trans_ℕ;
  after_total = λ a b p q. ground arith;
  nil_lowest = λ a. ground arith;
}
