-- ===== src/Bytetree/Keys.antt =====
-- bytetree/bytetree.go: the keys that the nodes carry, which is what `Walk` reports.
use zenodb.Prelude.{
  ℕ, suc, ◌≡◌, refl, Option, none, some, List, [], ◌∷◌, ◌++◌, arith, length, length-append,
  take-append_left, ==_iff, drop-append_left,
}
use zenodb.Prelude.Int.{ℤ}
use zenodb.Bytetree.{
  none_left, common, meet, divide, do_update, split, update_edges, empty, update, was_removed_for,
  listed,
}
use zenodb.Bytetree.Radix.{edges-divide}
use zenodb.Bytetree.Walk.{shown_below, shown, call_of}

common-append : (k l : List ℕ) → common (k ++ l) k ≡ length k
unfolding common
common-append [] [] = refl
common-append [] (x ∷ l) = refl
common-append (x ∷ k) l = ground (arith, common-append k l)

meet-append : (x c : ℕ) (k r : List ℕ) → meet ((x ∷ k) ++ (c ∷ r)) (x ∷ k) ≡ divide
unfolding meet
meet-append x c k r = ground (arith, common-append (x ∷ k) (c ∷ r), length-append (x ∷ k) (c ∷ r))

-- A key that is a proper prefix of the one key in the tree gets the node that the split makes, which
-- carries no key: a walk reports its data under the empty key.
prefix_loses_key :
    {D : Type 0} (upd : Option D → D × ℤ) (ctx x c : ℕ) (k r : List ℕ)
    → shown_below ctx [] (update upd (x ∷ k) (update upd ((x ∷ k) ++ (c ∷ r)) empty).0).0.root
      ≡ (x ∷ k, [], (upd none).0) ∷ ((x ∷ k) ++ (c ∷ r), (x ∷ k) ++ (c ∷ r), (upd none).0) ∷ []
unfolding update empty update_edges do_update split shown_below call_of shown was_removed_for listed
prefix_loses_key upd ctx x c k r =
    rw
      (
        edges-divide upd (x ∷ k) (x ∷ (k ++ (c ∷ r))) (x ∷ (k ++ (c ∷ r))) none_left none_left
            (some (upd none).0) [] (x ∷ k) (meet-append x c k r),
        common-append (x ∷ k) (c ∷ r),
        split,
        (==_iff (suc (length k)) (suc (length k))).1 refl,
      )
      (ground (arith, take-append_left k (c ∷ r), drop-append_left k (c ∷ r)))
