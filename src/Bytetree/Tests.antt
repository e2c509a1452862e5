-- ===== src/Bytetree/Tests.antt =====
-- bytetree/bytetree.go: the operations on a small tree, and the theorems at concrete inputs.
use zenodb.Prelude.{ℕ, ◌+◌, ◌≡◌, refl, true, Option, none, some, List, [], ◌∷◌, arith, list_eq}
use mathlib.Core.List.{Perm}
use zenodb.Prelude.Int.{ℤ, pos}
use zenodb.Bytetree.{
  node, none_left, edge, common, meet, do_update, split, update_edges, Tree, empty, update, remove,
}
use zenodb.Bytetree.Prefix.{strip}
use zenodb.Bytetree.Radix.{IsRadix, update-IsRadix}
use zenodb.Bytetree.Lookup.{at_path, at_path-update}
use zenodb.Bytetree.Contexts.{seen, remove_lem}
use zenodb.Bytetree.Walk.{Answer, Call, walk, walk_lem, call_each, shown_below}

-- Each update counts one point and adds eight bytes for the first.
abbrev count_point : Option ℕ → ℕ × ℤ
count_point none = (1, pos 8)
count_point (some n) = (n + 1, pos 0)

-- "abc" and "abd" below "ab", and "x".
abbrev small : Tree ℕ
small = record {
  root =
      edge (97 ∷ 98 ∷ [])
        (node []
          (edge (99 ∷ []) (node (97 ∷ 98 ∷ 99 ∷ []) none_left (some 1) [])
            (edge (100 ∷ []) (node (97 ∷ 98 ∷ 100 ∷ []) none_left (some 2) []) none_left))
          none [])
        (edge (120 ∷ []) (node (120 ∷ []) none_left (some 3) []) none_left);
  bytes = pos 30;
  size = 3;
}

small-IsRadix : IsRadix small.root
small-IsRadix = ((tt, (omega arith, tt), (tt, tt, tt)), (omega arith, tt), (tt, tt, tt))

built :
    (update count_point
      (97 ∷ 98 ∷ 100 ∷ [])
      (update count_point (97 ∷ 98 ∷ 99 ∷ []) empty).0).0.root
    ≡ edge
        (97 ∷ 98 ∷ [])
        (node []
          (edge
            (99 ∷ [])
            (node (97 ∷ 98 ∷ 99 ∷ []) none_left (some 1) [])
            (edge (100 ∷ []) (node (97 ∷ 98 ∷ 100 ∷ []) none_left (some 1) []) none_left))
          none
          [])
        none_left
unfolding update empty update_edges do_update split meet common
built = refl

at_path-update_example :
    at_path (update count_point (97 ∷ []) small).0.root (97 ∷ 98 ∷ 99 ∷ []) ≡ some 1
unfolding list_eq at_path strip
at_path-update_example =
    at_path-update count_point (97 ∷ []) small (97 ∷ 98 ∷ 99 ∷ []) small-IsRadix

update-IsRadix_example :
    IsRadix (empty {D = ℕ}).root
    × (IsRadix small.root → IsRadix (update count_point (97 ∷ []) small).0.root)
update-IsRadix_example = update-IsRadix count_point (97 ∷ []) small

remove_lem_example :
    ((remove 7 (120 ∷ []) small).1 ≡ seen 7 small.root (120 ∷ []))
    × (seen 7 (remove 7 (120 ∷ []) small).0.root (120 ∷ []) ≡ none)
unfolding list_eq
remove_lem_example = remove_lem 7 7 (120 ∷ []) (120 ∷ []) small

-- A callback that adds the values up and keeps every node.
abbrev total : ℕ → List ℕ → ℕ → Answer ℕ ℕ
total s key n = record { state = s + n; more = true; keep = true; error = none }

walk_lem_example :
    (calls : List (Call ℕ)) × Perm calls (shown_below 0 [] small.root)
    × (walk 0 total small 0 ≡ some (call_each 0 total small.root 0 calls))
walk_lem_example = walk_lem 0 total small 0
