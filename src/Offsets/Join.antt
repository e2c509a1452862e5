-- ===== src/Offsets/Join.antt =====
-- common/common.go: `Advance` takes the higher offset of each source, and `LimitAge` raises the lower.
use mathlib.Core.Option
use zenodb.Prelude.{◌≡◌, refl, ap, Option, none, some, [], ◌∷◌, arith, if◌then◌else◌}
use zenodb.Prelude.Assoc.{Key, Assoc, get, put, get-put}
use zenodb.Offsets.{WalOffset, raise_all, advance, limit_all, limit_age, OffsetsBySource, or_nil}

-- the source's offset, with Go's nil for a source that is not there
pub offset_of : (w : WalOffset) {K : Type 0} ⦃key : Key K⦄ → K → OffsetsBySource w K → w.Offset
offset_of w k none = w.nil_offset
offset_of w k (some m) = or_nil w (get k m)

-- the higher of two offsets
abbrev pub higher : (w : WalOffset) → w.Offset → w.Offset → w.Offset
higher w old new = if w.after new old then new else old

-- each source stands once in a map
abbrev pub IsMap : {K : Type 0} ⦃key : Key K⦄ {V : Type 0} → Assoc K V → Type 0
IsMap [] = Unit {0}
IsMap ((k, o) ∷ m) = (get k m ≡ none) × IsMap m

abbrev pub IsMapOrNil : {K : Type 0} ⦃key : Key K⦄ {V : Type 0} → Option (Assoc K V) → Type 0
IsMapOrNil none = Unit {0}
IsMapOrNil (some m) = IsMap m

module _ (w : WalOffset) where
  open w use {Offset}

  higher_comm : (a b : Offset) → higher w a b ≡ higher w b a
  higher_comm a b = ground (arith, w.after_total a b, w.after_trans a b a, w.after_irrefl a)

  higher_assoc : (a b c : Offset) → higher w (higher w a b) c ≡ higher w a (higher w b c)
  higher_assoc a b c = ground (
    arith,
    w.after_trans c b a,
    w.after_total b a,
    w.after_trans a b c,
    w.after_total c b,
    w.after_trans b a c,
    w.after_trans c a b,
    w.after_total a c,
  )

module _ (w : WalOffset) {K : Type 0} ⦃key : Key K⦄ where
  open w use {Offset, nil_offset, after}

  get-raise_one :
      (m : Assoc K Offset) (j k : K) (o : Offset)
      → or_nil w (get k (if after o (or_nil w (get j m)) then put j o m else m))
        ≡ (if key.same j k then higher w (or_nil w (get k m)) o else or_nil w (get k m))
  unfolding or_nil
  get-raise_one m j k o = ground (arith, get-put j o m k, key.same_iff j k)

  offset_of-raise_all :
      (m news : Assoc K Offset) (k : K)
      → IsMap news
      → or_nil w (get k (raise_all w m news))
        ≡ higher w (or_nil w (get k m)) (or_nil w (get k news))
  unfolding raise_all or_nil get
  offset_of-raise_all m [] k h = ground (arith, w.nil_lowest (or_nil w (get k m)))
  offset_of-raise_all m ((j, o) ∷ news) k h = ground (
    arith,
    offset_of-raise_all (if after o (or_nil w (get j m)) then put j o m else m) news k h.1,
    get-raise_one m j k o,
    key.same_iff j k,
    w.nil_lowest o,
    w.nil_lowest (or_nil w (get k m)),
  )

  -- After `Advance` each source is at the higher of its two offsets.
  pub offset_of-advance :
      (old news : OffsetsBySource w K) (k : K)
      → IsMapOrNil news
      → offset_of w k (advance w old news) ≡ higher w (offset_of w k old) (offset_of w k news)
  unfolding advance offset_of
  offset_of-advance none none k h = ground (arith, w.nil_lowest nil_offset)
  offset_of-advance none (some news) k h =
      ground (arith, w.nil_lowest o, w.after_total o nil_offset)
    where
      o : Offset
      o = or_nil w (get k news)
  offset_of-advance (some old) none k h = ground (arith, w.nil_lowest (or_nil w (get k old)))
  offset_of-advance (some old) (some news) k h = offset_of-raise_all old news k h

  -- What a source's offset is after two reports does not depend on which came first.
  advance_either_order :
      (old a b : OffsetsBySource w K) (k : K)
      → IsMapOrNil a
      → IsMapOrNil b
      → offset_of w k (advance w (advance w old a) b)
        ≡ offset_of w k (advance w (advance w old b) a)
  advance_either_order old a b k ha hb =
      rw
        (
          offset_of-advance (advance w old a) b k hb,
          offset_of-advance old a k ha,
          offset_of-advance (advance w old b) a k ha,
          offset_of-advance old b k hb,
          higher_assoc w,
          higher_assoc w (offset_of w k old) (offset_of w k b) (offset_of w k a),
        )
        (ap (higher w (offset_of w k old)) (higher_comm w (offset_of w k a) (offset_of w k b)))

  get-limit_all :
      (limit : Offset) (m : Assoc K Offset) (k : K)
      → get k (limit_all w limit m) ≡ Option.map (λ o. higher w o limit) (get k m)
  unfolding limit_all get
  get-limit_all limit [] k = refl
  get-limit_all limit ((j, o) ∷ m) k = ground (arith, get-limit_all limit m k)

  -- `LimitAge` keeps the sources, and puts each at the higher of its offset and the limit.
  pub get-limit_age :
      (limit : Offset) (m : Assoc K Offset) (k : K)
      → (l : Assoc K Offset) × (limit_age w limit (some m) ≡ some l)
        × (get k l ≡ Option.map (λ o. higher w o limit) (get k m))
  unfolding limit_age
  get-limit_age limit m k = (limit_all w limit m, refl, get-limit_all limit m k)
