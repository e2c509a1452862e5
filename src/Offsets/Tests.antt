-- ===== src/Offsets/Tests.antt =====
-- common/common.go: the theorems on offsets at concrete maps.
use zenodb.Prelude.{ℕ, ◌≡◌, refl, some, [], ◌∷◌}
use zenodb.Prelude.Assoc.{Assoc, int_key, get}
use zenodb.Offsets
use zenodb.Prelude.Assoc
use zenodb.Offsets.{WalOffset, OffsetsBySource, or_nil, advance, limit_age, lowest_ts, highest_ts}
use zenodb.Offsets.Samples.{numbers}
use zenodb.Offsets.Join.{offset_of, higher, offset_of-advance}

abbrev old : OffsetsBySource numbers ℕ
old = some ((1, 10) ∷ (2, 20) ∷ [])

abbrev news : OffsetsBySource numbers ℕ
news = some ((2, 15) ∷ (1, 11) ∷ (3, 5) ∷ [])

advanced : advance numbers old news ≡ some ((1, 11) ∷ (2, 20) ∷ (3, 5) ∷ [])
unfolding advance Offsets.raise_all or_nil get Assoc.put
advanced = refl

offset_of-advance_example :
    offset_of numbers 1 (advance numbers old news)
    ≡ higher numbers (offset_of numbers 1 old) (offset_of numbers 1 news)
unfolding get
offset_of-advance_example = offset_of-advance numbers old news 1 (refl, (refl, (refl, tt)))
