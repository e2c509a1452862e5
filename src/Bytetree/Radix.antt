-- ===== src/Bytetree/Radix.antt =====
-- bytetree/bytetree.go: the shape of the tree, and that `Update` keeps it.
use zenodb.Prelude.{
  ℕ, suc, ◌-◌, ◌≡◌, ◌≢◌, ◌⊎◌, refl, sym, Option, none, some, List, [], ◌∷◌, arith, ◌==◌, length,
  take, drop, Bool-cases, inl, inr,
}
use mathlib.Core.Path.{subst}
use zenodb.Prelude.Int.{ℤ}
use zenodb.Bytetree.{
  Node, Edges, node, none_left, edge, common, meet, Meeting, exact, descend, divide, apart,
  do_update, split, update_edges, Tree, empty, update,
}
use zenodb.Bytetree.Prefix.{strip-divide, strip-apart, apart_heads, HeadsDiffer, heads_differ}

-- No key below these edges begins with the byte `c`.
abbrev pub Without : {D : Type 0} → ℕ → Edges D → Type 0
Without c none_left = Unit {0}
Without c (edge [] (node k es d gone) rest) = Without c es × Without c rest
Without c (edge (x ∷ label) target rest) = (x ≢ c) × Without c rest

-- Of the edges at a node no two begin with the same byte, and an empty label stands last.
abbrev pub IsRadix : {D : Type 0} → Edges D → Type 0
IsRadix none_left = Unit {0}
IsRadix (edge [] (node k es d gone) rest) = (rest ≡ none_left) × IsRadix es
IsRadix (edge (x ∷ label) (node k es d gone) rest) = IsRadix es × Without x rest × IsRadix rest

pub IsRadix-parts :
    {D : Type 0} (label k : List ℕ) (es rest : Edges D) (d : Option D) (gone : List ℕ)
    → IsRadix (edge label (node k es d gone) rest)
    → IsRadix es × IsRadix rest
IsRadix-parts [] k es rest d gone w = (w.1, rw w.0 tt)
IsRadix-parts (x ∷ label) k es rest d gone w = (w.0, w.2)

pub Meeting-cases : (m : Meeting) → (m ≡ exact) ⊎ (m ≡ descend) ⊎ (m ≡ divide) ⊎ (m ≡ apart)
Meeting-cases exact = inl refl
Meeting-cases descend = inr (inl refl)
Meeting-cases divide = inr (inr (inl refl))
Meeting-cases apart = inr (inr (inr refl))

abbrev HeadNot : ℕ → List ℕ → Type 0
HeadNot c [] = Unit {0}
HeadNot c (y ∷ key) = y ≢ c

module _ {D : Type 0} (k : List ℕ) (es : Edges D) (d : Option D) (gone : List ℕ) where
  one_edge-IsRadix :
      (l : List ℕ) → l ≢ [] → IsRadix es → IsRadix (edge l (node k es d gone) none_left)
  one_edge-IsRadix [] ne w = absurd (ne refl)
  one_edge-IsRadix (x ∷ l) ne w = (w, tt, tt)

  two_edges-IsRadix :
      (l m n : List ℕ) (leaf : Option D)
      → l ≢ []
      → HeadsDiffer l m
      → IsRadix es
      → IsRadix (edge l (node k es d gone) (edge m (node n none_left leaf []) none_left))
  two_edges-IsRadix [] m n leaf ne h w = absurd (ne refl)
  two_edges-IsRadix (x ∷ l) [] n leaf ne h w = (w, (tt, tt), (refl, tt))
  two_edges-IsRadix (x ∷ l) (y ∷ m) n leaf ne h w = (w, ((λ e. h (sym e)), tt), (tt, tt, tt))

pub below : {D : Type 0} → Node D → Edges D
below (node k es d gone) = es

edge-IsRadix :
    {D : Type 0} (x : ℕ) (l : List ℕ) (n : Node D) (rest : Edges D)
    → IsRadix (below n)
    → Without x rest
    → IsRadix rest
    → IsRadix (edge (x ∷ l) n rest)
unfolding below
edge-IsRadix x l (node k es d gone) rest w h r = (w, h, r)

module _ {D : Type 0} (upd : Option D → D × ℤ) (full_key : List ℕ) (label k : List ℕ)
    (es rest : Edges D) (d : Option D) (gone key : List ℕ) where
  abbrev pub after : Edges D
  after = (update_edges upd full_key (edge label (node k es d gone) rest) key).0

  pub edges-exact :
      meet label key ≡ exact → after ≡ edge label (node k es (some (upd d).0) gone) rest
  unfolding update_edges do_update
  edges-exact m = rw (m, after)

  pub edges-descend :
      meet label key ≡ descend
      → after
        ≡ edge label (node k (update_edges upd full_key es (drop (length label) key)).0 d gone) rest
  unfolding update_edges
  edges-descend m = rw (m, after)

  pub edges-divide :
      meet label key ≡ divide
      → after
        ≡ edge
            (take (common label key) label)
            (split upd full_key (common label key) label (node k es d gone) key).0
            rest
  unfolding update_edges
  edges-divide m = rw (m, after)

  pub edges-apart :
      meet label key ≡ apart
      → after ≡ edge label (node k es d gone) (update_edges upd full_key rest key).0
  unfolding update_edges
  edges-apart m = rw (m, after)

  -- The new node of a split holds one or two edges, which begin with different bytes.
  split-IsRadix :
      (i : ℕ)
      → drop i label ≢ []
      → HeadsDiffer (drop i label) (drop i key)
      → IsRadix es
      → IsRadix (below (split upd full_key i label (node k es d gone) key).0)
  unfolding split do_update below
  split-IsRadix i ne h w = elim (Bool-cases (i == length key)) [
    | inl e ↦ rw e (one_edge-IsRadix k es d gone (drop i label) ne w)
    | inr e ↦ rw e (
        two_edges-IsRadix k es d gone (drop i label) (drop i key) full_key (some (upd none).0) ne h
          w)
  ]

module _ {D : Type 0} (upd : Option D → D × ℤ) (full_key : List ℕ) where
  update_edges-Without :
      (c : ℕ) (es : Edges D) (key : List ℕ)
      → HeadNot c key
      → Without c es
      → Without c (update_edges upd full_key es key).0
  unfolding update_edges do_update split
  update_edges-Without c none_left [] h w = (tt, tt)
  update_edges-Without c none_left (y ∷ key) h w = (h, tt)
  update_edges-Without c (edge [] (node k es d gone) rest) key h w =
      elim (Meeting-cases (meet [] key)) [
        | inl m ↦ rw (edges-exact upd full_key [] k es rest d gone key m) w
        | inr (inl m) ↦
            rw (edges-descend upd full_key [] k es rest d gone key m)
              (update_edges-Without c es key h w.0, w.1)
        | inr (inr (inl m)) ↦ absurd (grind (arith, strip-divide [] key m))
        | inr (inr (inr m)) ↦ absurd (grind (arith, strip-apart [] key m))
      ]
  update_edges-Without c (edge (x ∷ label) (node k es d gone) rest) key h w =
      elim (Meeting-cases (meet (x ∷ label) key)) [
        | inl m ↦ rw (edges-exact upd full_key (x ∷ label) k es rest d gone key m) w
        | inr (inl m) ↦ rw (edges-descend upd full_key (x ∷ label) k es rest d gone key m) w
        | inr (inr (inl m)) ↦
            let e : common (x ∷ label) key ≡ suc (common (x ∷ label) key - 1) =
              omega (arith, (strip-divide (x ∷ label) key m).1) in
            rw (edges-divide upd full_key (x ∷ label) k es rest d gone key m, e) w
        | inr (inr (inr m)) ↦
            rw (edges-apart upd full_key (x ∷ label) k es rest d gone key m)
              (w.0, update_edges-Without c rest key h w.1)
      ]

  HeadNot-of_apart : (x : ℕ) (label key : List ℕ) → meet (x ∷ label) key ≡ apart → HeadNot x key
  HeadNot-of_apart x label [] m = tt
  HeadNot-of_apart x label (y ∷ key) m = λ e. apart_heads x y label key m (sym e)

  -- `Update` keeps the shape.
  pub update_edges-IsRadix :
      (es : Edges D) (key : List ℕ) → IsRadix es → IsRadix (update_edges upd full_key es key).0
  unfolding update_edges do_update
  update_edges-IsRadix none_left [] w = (refl, tt)
  update_edges-IsRadix none_left (y ∷ key) w = (tt, tt, tt)
  update_edges-IsRadix (edge [] (node k es d gone) rest) key w =
      elim (Meeting-cases (meet [] key)) [
        | inl m ↦ rw (edges-exact upd full_key [] k es rest d gone key m) w
        | inr (inl m) ↦
            rw (edges-descend upd full_key [] k es rest d gone key m)
              (w.0, update_edges-IsRadix es key w.1)
        | inr (inr (inl m)) ↦ absurd (grind (arith, strip-divide [] key m))
        | inr (inr (inr m)) ↦ absurd (grind (arith, strip-apart [] key m))
      ]
  update_edges-IsRadix (edge (x ∷ label) (node k es d gone) rest) key w =
      elim (Meeting-cases (meet (x ∷ label) key)) [
        | inl m ↦ rw (edges-exact upd full_key (x ∷ label) k es rest d gone key m) w
        | inr (inl m) ↦
            rw (edges-descend upd full_key (x ∷ label) k es rest d gone key m)
              (update_edges-IsRadix es (drop (length (x ∷ label)) key) w.0, w.1, w.2)
        | inr (inr (inl m)) ↦
            let e : common (x ∷ label) key ≡ suc (common (x ∷ label) key - 1) =
              omega (arith, (strip-divide (x ∷ label) key m).1) in
            rw (edges-divide upd full_key (x ∷ label) k es rest d gone key m) (
              subst
                (λ i. IsRadix (
                  edge (take i (x ∷ label))
                    (split upd full_key (common (x ∷ label) key) (x ∷ label) (node k es d gone)
                      key).0
                    rest))
                (sym e)
                (edge-IsRadix x (take (common (x ∷ label) key - 1) label)
                  (split upd full_key (common (x ∷ label) key) (x ∷ label) (node k es d gone) key).0
                  rest
                  (split-IsRadix upd full_key (x ∷ label) k es rest d gone key
                    (common (x ∷ label) key) (strip-divide (x ∷ label) key m).2
                    (heads_differ (x ∷ label) key) w.0)
                  w.1 w.2))
        | inr (inr (inr m)) ↦ rw (edges-apart upd full_key (x ∷ label) k es rest d gone key m) (
          w.0,
          update_edges-Without x rest key (HeadNot-of_apart x label key m) w.1,
          update_edges-IsRadix rest key w.2,
        )
      ]

-- The tree of `New` is well shaped, and `Update` keeps that: at each node no two edges begin with the
-- same byte, and an edge with the empty label has no edge behind it and no key in common with those
-- before it.
pub update-IsRadix :
    {D : Type 0} (upd : Option D → D × ℤ) (key : List ℕ) (t : Tree D)
    → IsRadix (empty {D = D}).root × (IsRadix t.root → IsRadix (update upd key t).0.root)
unfolding empty update
update-IsRadix upd key t = (tt, update_edges-IsRadix upd key t.root key)
