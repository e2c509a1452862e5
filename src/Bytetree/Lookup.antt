-- ===== src/Bytetree/Lookup.antt =====
-- bytetree/bytetree.go: the tree as a map from keys to data. `at_path` reads a key along the
-- labels and knows nothing of how `Update` and `Remove` search.
use zenodb.Prelude.{
  ℕ, ◌<◌, ◌≡◌, refl, Option, none, some, List, [], ◌∷◌, arith, ◌==◌, if◌then◌else◌, length, take,
  drop, list_eq_nil, drop-eq-nil, drop-ne-nil, list_eq, Bool-cases, Option-cases, inl, inr,
}
use zenodb.Prelude.Int.{ℤ}
use zenodb.Bytetree.{
  Edges, node, none_left, edge, common, meet, exact, descend, divide, apart, do_update, split,
  update_edges, Tree, update,
}
use zenodb.Bytetree.Radix.{Without, IsRadix, IsRadix-parts, Meeting-cases}
use zenodb.Bytetree.Prefix.{
  strip_none, strip, strip_parts, strip-head, strip_ne, strip_nil, list_eq_of_strip, list_eq-strip,
  list_eq-strip_ne, strip_nil, strip-exact, strip-descend, strip-divide, strip-apart,
}

-- The data found for what is left of a key behind a label: here, below, or further on.
abbrev pub pick :
    {D : Type 0} → Option (List ℕ) → Option D → (List ℕ → Option D) → Option D → Option D
pick none here below beside = beside
pick (some []) here below beside = here
pick (some (c ∷ r)) here below beside = below (c ∷ r)

unfoldable pub at_path : {D : Type 0} → Edges D → List ℕ → Option D
at_path none_left key = none
at_path (edge label (node k es d gone) rest) key =
    pick (strip label key) d (at_path es) (at_path rest key)

abbrev pub rest_or_nil : Option (List ℕ) → List ℕ
rest_or_nil none = []
rest_or_nil (some j) = j

at_path-Without :
    {D : Type 0} (c : ℕ) (es : Edges D) (key : List ℕ) → Without c es → at_path es (c ∷ key) ≡ none
unfolding at_path
at_path-Without c none_left key h = refl
at_path-Without c (edge [] (node k es d gone) rest) key h =
    rw strip_none (at_path-Without c es key h.0)
at_path-Without c (edge (x ∷ label) (node k es d gone) rest) key h =
    ground (arith, strip_ne x c label key h.0, at_path-Without c rest key h.1)

at_path-beside :
    {D : Type 0} (x : ℕ) (rest : Edges D) (i : ℕ) (l j j' : List ℕ)
    → Without x rest
    → 0 < i
    → strip (take i (x ∷ l)) j ≡ some j'
    → at_path rest j ≡ none
at_path-beside x rest i l j j' w h p =
    let (r, e) = strip-head i x l j j' h p in rw e (at_path-Without x rest r w)

module _ {D : Type 0} (upd : Option D → D × ℤ) (full_key : List ℕ) where
  -- what a map holds at `j` after the update at `key` of what `old` held
  abbrev updated : List ℕ → (List ℕ → Option D) → List ℕ → Option D
  updated key old j = if list_eq j key then some (upd (old key)).0 else old j

  module _ (label k : List ℕ) (es rest : Edges D) (d : Option D) (gone key j : List ℕ) where
    at_path-exact :
        meet label key ≡ exact
        → at_path (update_edges upd full_key (edge label (node k es d gone) rest) key).0 j
          ≡ updated key (at_path (edge label (node k es d gone) rest)) j
    unfolding update_edges do_update at_path
    at_path-exact m = ground (
      arith,
      strip-exact label key,
      list_eq-strip label j key [],
      list_eq_nil (rest_or_nil (strip label j)),
    )

    at_path-apart :
        meet label key ≡ apart
        → at_path (update_edges upd full_key rest key).0 j ≡ updated key (at_path rest) j
        → at_path (update_edges upd full_key (edge label (node k es d gone) rest) key).0 j
          ≡ updated key (at_path (edge label (node k es d gone) rest)) j
    unfolding update_edges at_path
    at_path-apart m ih = ground (arith, strip-apart label key, list_eq-strip_ne label j key)

    at_path-descend :
        meet label key ≡ descend
        → ((i : List ℕ)
            → at_path (update_edges upd full_key es (drop (length label) key)).0 i
              ≡ updated (drop (length label) key) (at_path es) i)
        → at_path (update_edges upd full_key (edge label (node k es d gone) rest) key).0 j
          ≡ updated key (at_path (edge label (node k es d gone) rest)) j
    unfolding update_edges at_path
    at_path-descend m ih = ground (
      arith,
      strip-descend label key,
      list_eq-strip label j key (drop (length label) key),
      ih (rest_or_nil (strip label j)),
      list_eq_nil (drop (length label) key),
    )

  module _ (x : ℕ) (label k : List ℕ) (es rest : Edges D) (d : Option D) (gone key j : List ℕ) where
    at_path-divide :
        meet (x ∷ label) key ≡ divide
        → Without x rest
        → at_path (update_edges upd full_key (edge (x ∷ label) (node k es d gone) rest) key).0 j
          ≡ updated key (at_path (edge (x ∷ label) (node k es d gone) rest)) j
    unfolding update_edges at_path split do_update
    at_path-divide m w = elim (Option-cases (strip (take i (x ∷ label)) j)) [
      | inl e ↦ ground (
        arith,
        strip-divide (x ∷ label) key,
        strip_parts i (x ∷ label) j,
        list_eq-strip (take i (x ∷ label)) j key (drop i key),
      )
      | inr (j', e) ↦ elim (Bool-cases (i == length key)) [
        | inl f ↦ ground (
          arith,
          strip-divide (x ∷ label) key,
          strip_parts i (x ∷ label) j,
          list_eq-strip (take i (x ∷ label)) j key (drop i key),
          at_path-beside x rest i label key (drop i key) w,
          at_path-beside x rest i label j j' w,
          strip_nil (drop i (x ∷ label)),
          list_eq_nil j',
          drop-eq-nil i key,
        )
        | inr f ↦ ground (
          arith,
          strip-divide (x ∷ label) key,
          strip_parts i (x ∷ label) j,
          strip_parts i (x ∷ label) key,
          list_eq-strip (take i (x ∷ label)) j key (drop i key),
          list_eq-strip_ne (drop i (x ∷ label)) j' (drop i key),
          list_eq_of_strip j' (drop i key),
          at_path-beside x rest i label key (drop i key) w,
          at_path-beside x rest i label j j' w,
          strip_nil (drop i (x ∷ label)),
          strip_nil (drop i key),
          drop-ne-nil i key,
        )
      ]
    ]
      where
        i : ℕ
        i = common (x ∷ label) key

  at_path-divided :
      (label k : List ℕ) (es rest : Edges D) (d : Option D) (gone key j : List ℕ)
      → meet label key ≡ divide
      → IsRadix (edge label (node k es d gone) rest)
      → at_path (update_edges upd full_key (edge label (node k es d gone) rest) key).0 j
        ≡ updated key (at_path (edge label (node k es d gone) rest)) j
  at_path-divided [] k es rest d gone key j m w = absurd (grind (arith, strip-divide [] key m))
  at_path-divided (x ∷ label) k es rest d gone key j m w =
      at_path-divide x label k es rest d gone key j m w.1

  -- What `Update` leaves at any key: at its own the new data, elsewhere what was there.
  at_path-update_edges :
      (es : Edges D) (key j : List ℕ)
      → IsRadix es
      → at_path (update_edges upd full_key es key).0 j ≡ updated key (at_path es) j
  unfolding update_edges do_update at_path
  at_path-update_edges none_left key j w = ground (arith, list_eq_of_strip j key)
  at_path-update_edges (edge label (node k es d gone) rest) key j w =
      let (we, wr) = IsRadix-parts label k es rest d gone w in
      elim (Meeting-cases (meet label key)) [
        | inl m ↦ at_path-exact label k es rest d gone key j m
        | inr (inl m) ↦
            at_path-descend label k es rest d gone key j m
              (λ i. at_path-update_edges es (drop (length label) key) i we)
        | inr (inr (inl m)) ↦ at_path-divided label k es rest d gone key j m w
        | inr (inr (inr m)) ↦
            at_path-apart label k es rest d gone key j m (at_path-update_edges rest key j wr)
      ]

-- `Update` at a key of a well-shaped tree leaves there what `node.doUpdate` makes of the data that
-- was there, or of nil, and leaves the data of every other key alone.
pub at_path-update :
    {D : Type 0} (upd : Option D → D × ℤ) (key : List ℕ) (t : Tree D) (j : List ℕ)
    → IsRadix t.root
    → at_path (update upd key t).0.root j
      ≡ (if list_eq j key then some (upd (at_path t.root key)).0 else at_path t.root j)
unfolding update
at_path-update upd key t j w = at_path-update_edges upd key t.root key j w
