-- ===== src/Bytetree/Prefix.antt =====
-- bytetree/bytetree.go: what the comparison of a label with a key finds, said with prefixes.
use zenodb.Prelude.{
  ℕ, zero, suc, ◌≤◌, ◌<◌, ◌≢◌, ◌⊎◌, ◌≡◌, refl, Bool, false, Option, none, some, List, [], ◌∷◌, ◌++◌,
  arith, ◌==◌, if◌then◌else◌, length, take, drop, is_nil, list_eq_nil, ◌∙◌, drop-eq-nil,
  drop-ne-nil, list_eq, Bool-cases, inl, inr,
}
use zenodb.Bytetree.{common, meet, exact, descend, divide, apart}

-- What is left of a key behind a prefix.
unfoldable pub strip : List ℕ → List ℕ → Option (List ℕ)
strip [] key = some key
strip (l ∷ ls) [] = none
strip (l ∷ ls) (k ∷ ks) = if l == k then strip ls ks else none

common-le :
    (label key : List ℕ) → (common label key ≤ length label) × (common label key ≤ length key)
unfolding common
common-le [] key = omega arith
common-le (l ∷ ls) [] = omega arith
common-le (l ∷ ls) (k ∷ ks) = ground (arith, common-le ls ks)

strip-common :
    (label key : List ℕ)
    → strip (take (common label key) label) key ≡ some (drop (common label key) key)
unfolding common strip
strip-common [] key = refl
strip-common (l ∷ ls) [] = refl
strip-common (l ∷ ls) (k ∷ ks) = elim (Bool-cases (l == k)) [
  | inl e ↦ rw e (rw e (strip-common ls ks))
  | inr e ↦ rw e refl
]

-- The whole label is a prefix exactly when the loop ran to its end.
strip_of_common :
    (label key : List ℕ)
    → common label key ≡ length label
    → strip label key ≡ some (drop (length label) key)
unfolding common strip
strip_of_common [] key h = refl
strip_of_common (l ∷ ls) [] h = absurd (omega arith)
strip_of_common (l ∷ ls) (k ∷ ks) h = ground (arith, strip_of_common ls ks)

strip-eq-none : (label key : List ℕ) → common label key < length label → strip label key ≡ none
unfolding common strip
strip-eq-none [] key h = absurd (omega arith)
strip-eq-none (l ∷ ls) [] h = refl
strip-eq-none (l ∷ ls) (k ∷ ks) h = ground (arith, strip-eq-none ls ks)

strip-append : (p k : List ℕ) → strip p (p ++ k) ≡ some k
unfolding strip
strip-append [] k = refl
strip-append (x ∷ p) k = ground (arith, strip-append p k)

-- Stripping a label is stripping its two parts in turn.
abbrev strip_all : List ℕ → Option (List ℕ) → Option (List ℕ)
strip_all l none = none
strip_all l (some key) = strip l key

pub strip_parts :
    (n : ℕ) (label key : List ℕ)
    → strip label key ≡ strip_all (drop n label) (strip (take n label) key)
unfolding strip
strip_parts zero label key = refl
strip_parts (suc n) [] key = refl
strip_parts (suc n) (l ∷ ls) [] = refl
strip_parts (suc n) (l ∷ ls) (k ∷ ks) = ground (arith, strip_parts n ls ks)

-- Whether what is left of a key, if it has the prefix, is the given rest.
abbrev pub left_eq : Option (List ℕ) → List ℕ → Bool
left_eq none k = false
left_eq (some j) k = list_eq j k

-- Behind a prefix of `k`, a key is told from `k` by its rest.
pub list_eq-strip : (l j k k' : List ℕ) → strip l k ≡ some k' → list_eq j k ≡ left_eq (strip l j) k'
unfolding strip list_eq
list_eq-strip [] j k k' p = ground arith
list_eq-strip (x ∷ l) j [] k' p = ground arith
list_eq-strip (x ∷ l) [] (z ∷ k) k' p = refl
list_eq-strip (x ∷ l) (y ∷ j) (z ∷ k) k' p = ground (arith, list_eq-strip l j k k')

-- Nor is a key with the prefix a key without it.
pub list_eq-strip_ne :
    (l j k : List ℕ) → strip l k ≡ none → (strip l j ≡ none) ⊎ (list_eq j k ≡ false)
unfolding strip list_eq
list_eq-strip_ne [] j k p = ground arith
list_eq-strip_ne (x ∷ l) [] k p = inl refl
list_eq-strip_ne (x ∷ l) (y ∷ j) [] p = inr refl
list_eq-strip_ne (x ∷ l) (y ∷ j) (z ∷ k) p = ground (arith, list_eq-strip_ne l j k)

strip_self : (k : List ℕ) → strip k k ≡ some []
unfolding strip
strip_self [] = refl
strip_self (x ∷ k) = ground (arith, strip_self k)

abbrev pub left_nil : Option (List ℕ) → Bool
left_nil none = false
left_nil (some j) = is_nil j

left_eq_nil : (o : Option (List ℕ)) → left_eq o [] ≡ left_nil o
left_eq_nil none = refl
left_eq_nil (some j) = (list_eq_nil j).0

pub list_eq_of_strip : (j k : List ℕ) → list_eq j k ≡ left_nil (strip k j)
unfolding strip list_eq
list_eq_of_strip j k = list_eq-strip k j k [] (strip_self k) ∙ left_eq_nil (strip k j)

-- A key with a prefix of a nonempty label begins as the label does.
pub strip-head :
    (i x : ℕ) (l j j' : List ℕ)
    → 0 < i
    → strip (take i (x ∷ l)) j ≡ some j'
    → (r : List ℕ) × (j ≡ x ∷ r)
unfolding strip
strip-head zero x l j j' h p = absurd (omega arith)
strip-head (suc i) x l [] j' h p = cc
strip-head (suc i) x l (y ∷ j) j' h p = (j, ground arith)

pub strip_ne : (x c : ℕ) (l k : List ℕ) → x ≢ c → strip (x ∷ l) (c ∷ k) ≡ none
unfolding strip
strip_ne x c l k h = ground arith

pub strip_nil : (l : List ℕ) → l ≢ [] → strip l [] ≡ none
unfolding strip
strip_nil [] h = absurd (h refl)
strip_nil (x ∷ l) h = refl

pub strip_none : (k : List ℕ) → strip [] k ≡ some k
unfolding strip
strip_none k = refl

pub strip-exact : (label key : List ℕ) → meet label key ≡ exact → strip label key ≡ some []
unfolding meet
strip-exact label key h =
    ground (arith, strip_of_common label key, common-le label key, drop-eq-nil (length label) key)

pub strip-descend :
    (label key : List ℕ)
    → meet label key ≡ descend
    → (strip label key ≡ some (drop (length label) key)) × (drop (length label) key ≢ [])
unfolding meet
strip-descend label key h =
    ground (arith, strip_of_common label key, common-le label key, drop-ne-nil (length label) key)

-- Where the edge is split the label is no prefix, and a proper part of it is shared.
pub strip-divide :
    (label key : List ℕ)
    → meet label key ≡ divide
    → let i = common label key in
      (strip label key ≡ none)
      × (0 < i)
      × (drop i label ≢ [])
      × (i ≤ length key)
      × (strip (take i label) key ≡ some (drop i key))
unfolding meet
strip-divide label key h = ground (
  arith,
  strip-eq-none label key,
  common-le label key,
  strip-common label key,
  drop-ne-nil (common label key) label,
)

pub strip-apart :
    (label key : List ℕ) → meet label key ≡ apart → (strip label key ≡ none) × (0 < length label)
unfolding meet
strip-apart label key h = ground (arith, strip-eq-none label key, common-le label key)

-- The first bytes of an edge passed over and of the key differ, where the key has one.
pub apart_heads : (x y : ℕ) (label key : List ℕ) → meet (x ∷ label) (y ∷ key) ≡ apart → x ≢ y
unfolding meet common
apart_heads x y label key h = ground arith

-- The two parts behind what label and key share.
abbrev pub HeadsDiffer : List ℕ → List ℕ → Type 0
HeadsDiffer (x ∷ l) (y ∷ k) = x ≢ y
HeadsDiffer l k = Unit {0}

pub heads_differ :
    (label key : List ℕ) → HeadsDiffer (drop (common label key) label) (drop (common label key) key)
unfolding common
heads_differ [] key = tt
heads_differ (l ∷ ls) [] = tt
heads_differ (l ∷ ls) (k ∷ ks) = elim (Bool-cases (l == k)) [
  | inl e ↦ rw e (heads_differ ls ks)
  | inr e ↦ rw e (ground arith)
]
