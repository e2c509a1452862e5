-- ===== src/Bytetree/Contexts.antt =====
-- bytetree/bytetree.go: what each context sees of the tree: `Remove` hides a key from one
-- context only, `Update` shows it to none again, and `Copy` forgets all removals.
use zenodb.Prelude.{
  ℕ, ◌≡◌, refl, true, ◌&&◌, ◌||◌, not, Option, none, List, [], ◌∷◌, ◌++◌, arith, ◌==◌,
  if◌then◌else◌, length, drop, list_eq_nil, list_eq, inl, inr,
}
use zenodb.Bytetree.{
  Edges, node, none_left, edge, meet, was_removed_for, do_remove_for, listed, Tree, remove_edges,
  remove, copy_edges, copy,
}
use zenodb.Bytetree.Prefix.{
  strip, list_eq-strip, list_eq-strip_ne, strip-exact, strip-descend, strip-divide, strip-apart,
}
use zenodb.Bytetree.Lookup.{pick, at_path, rest_or_nil}
use zenodb.Bytetree.Radix.{Meeting-cases}

-- The data that a context sees at a key: that of the node, unless it was removed for it.
unfoldable pub seen : {D : Type 0} → ℕ → Edges D → List ℕ → Option D
seen ctx none_left key = none
seen ctx (edge label (node k es d gone) rest) key =
    pick (strip label key) (if was_removed_for gone ctx then none else d) (seen ctx es)
      (seen ctx rest key)

-- Context 0 sees all that is there.
pub seen-zero : {D : Type 0} (es : Edges D) (key : List ℕ) → seen 0 es key ≡ at_path es key
unfolding seen at_path was_removed_for
seen-zero none_left key = refl
seen-zero (edge label (node k es d gone) rest) key =
    ground (arith, seen-zero es (rest_or_nil (strip label key)), seen-zero rest key)

listed-append :
    (cs : List ℕ) (c ctx : ℕ) → listed (cs ++ (c ∷ [])) ctx ≡ (listed cs ctx || (c == ctx))
unfolding listed
listed-append [] c ctx = ground arith
listed-append (x ∷ cs) c ctx = ground (arith, listed-append cs c ctx)

was_removed_for-do_remove_for :
    (ctx other : ℕ) (gone : List ℕ)
    → was_removed_for (do_remove_for ctx gone) other
      ≡ (if (ctx == 0) || not (ctx == other) then was_removed_for gone other else true)
unfolding was_removed_for do_remove_for
was_removed_for-do_remove_for ctx other gone = ground (arith, listed-append gone ctx other)

module _ {D : Type 0} (ctx : ℕ) where
  -- `Remove` hands out what the context saw at the key.
  pub remove_edges-found :
      (es : Edges D) (key : List ℕ) → (remove_edges ctx es key).1 ≡ seen ctx es key
  unfolding seen remove_edges
  remove_edges-found none_left key = refl
  remove_edges-found (edge label (node k es d gone) rest) key =
      elim (Meeting-cases (meet label key)) [
        | inl m ↦ ground (arith, strip-exact label key)
        | inr (inl m) ↦
            ground (arith, strip-descend label key, remove_edges-found es (drop (length label) key))
        | inr (inr (inl m)) ↦ ground (arith, strip-divide label key, remove_edges-found rest key)
        | inr (inr (inr m)) ↦ ground (arith, strip-apart label key, remove_edges-found rest key)
      ]

  -- What another context, or the same one, sees at any key after `Remove`.
  pub seen-remove_edges :
      (other : ℕ) (es : Edges D) (key j : List ℕ)
      → seen other (remove_edges ctx es key).0 j
        ≡ (if list_eq j key && (not (ctx == 0) && (ctx == other)) then none else seen other es j)
  unfolding seen remove_edges
  seen-remove_edges other none_left key j = ground arith
  seen-remove_edges other (edge label (node k es d gone) rest) key j =
      elim (Meeting-cases (meet label key)) [
        | inl m ↦ ground (
          arith,
          strip-exact label key,
          list_eq-strip label j key [],
          list_eq_nil (rest_or_nil (strip label j)),
          was_removed_for-do_remove_for ctx other gone,
          seen-remove_edges other rest key j,
        )
        | inr (inl m) ↦ ground (
          arith,
          strip-descend label key,
          list_eq-strip label j key (drop (length label) key),
          list_eq_nil (drop (length label) key),
          seen-remove_edges other es (drop (length label) key) (rest_or_nil (strip label j)),
        )
        | inr (inr (inl m)) ↦ ground (
          arith,
          strip-divide label key,
          list_eq-strip_ne label j key,
          seen-remove_edges other rest key j,
        )
        | inr (inr (inr m)) ↦ ground (
          arith,
          strip-apart label key,
          list_eq-strip_ne label j key,
          seen-remove_edges other rest key j,
        )
      ]

-- A copy shows every context all that is there.
pub seen-copy_edges :
    {D : Type 0} (ctx : ℕ) (es : Edges D) (key : List ℕ)
    → seen ctx (copy_edges es) key ≡ at_path es key
unfolding seen copy_edges at_path was_removed_for listed
seen-copy_edges ctx none_left key = refl
seen-copy_edges ctx (edge label (node k es d gone) rest) key =
    ground
      (arith, seen-copy_edges ctx es (rest_or_nil (strip label key)), seen-copy_edges ctx rest key)

-- `Remove` returns what the context saw at the key, and afterwards that context sees nothing there.
-- It sees all other keys as before, and other contexts see every key as before. Under context 0,
-- which stands for no context, nothing is removed.
pub remove_lem :
    {D : Type 0} (ctx other : ℕ) (key j : List ℕ) (t : Tree D)
    → ((remove ctx key t).1 ≡ seen ctx t.root key)
      × (seen other (remove ctx key t).0.root j ≡ (
          if list_eq j key && (not (ctx == 0) && (ctx == other))
          then none
          else seen other t.root j))
unfolding remove
remove_lem ctx other key j t =
    (remove_edges-found ctx t.root key, seen-remove_edges ctx other t.root key j)

-- In a copy every context sees what is in the tree, also what was removed for it.
pub seen-copy :
    {D : Type 0} (ctx : ℕ) (t : Tree D) (key : List ℕ)
    → seen ctx (copy t).root key ≡ at_path t.root key
unfolding copy
seen-copy ctx t key = seen-copy_edges ctx t.root key
