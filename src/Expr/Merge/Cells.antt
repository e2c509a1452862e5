-- ===== src/Expr/Merge/Cells.antt =====
-- expr/aggregate.go, expr/avg.go: what the merged cells hold.
use zenodb.Prelude.{
  ℕ, ◌≤◌, ◌≡◌, refl, Bool, true, false, ◌||◌, some, List, ◌++◌, if◌then◌else◌, length, Yields,
}
use zenodb.Expr.{Outside, Expr, Aggregate, aggregate, merge_fn}
use zenodb.Expr.Cell.{load, load-take, load-saved}
use zenodb.Expr.Merge.{merge, cell_merged, fits}

module _ (x : Outside) where
  open x use {Float, zero_float, add}

  -- What two cells come to: the value of the one that is set, or the merged values of both.
  abbrev pub both : (Float → Float → Float) → Float → Bool → Float → Bool → Float
  both f v s w t = if s then (if t then f v w else v) else (if t then w else zero_float)

  load-cell_merged :
      (a : Aggregate) (b r rest : List ℕ) (v : Float) (s : Bool) (w : Float) (t : Bool)
      → 9 ≤ length b
      → (s ≡ false → t ≡ false → load x b ≡ some (zero_float, false, rest))
      → load x (cell_merged x a b v s w t ++ r) ≡ some (both (merge_fn x a true) v s w t, s || t, r)
  unfolding cell_merged
  load-cell_merged a b r rest v true w true h k = load-saved x (merge_fn x a true v w) r
  load-cell_merged a b r rest v true w false h k = load-saved x v r
  load-cell_merged a b r rest v false w true h k = load-saved x w r
  load-cell_merged a b r rest v false w false h k =
      load-take x b r rest zero_float false h (k refl refl)

  -- On a buffer b of 9 bytes or more, and cells x and y that can be loaded, `Merge` of an aggregate takes
  -- over the value that is set in one of x and y, merges the two where both are set, and leaves none where
  -- neither is, provided that b then holds none, be it a new buffer or that of x.
  pub load-merge :
      (a : Aggregate) (e : Expr x) (b p q r rest rest_p rest_q : List ℕ) (v : Float) (s : Bool)
      (w : Float) (t : Bool)
      → 9 ≤ length b
      → load x p ≡ some (v, s, rest_p)
      → load x q ≡ some (w, t, rest_q)
      → (s ≡ false → t ≡ false → load x b ≡ some (zero_float, false, rest))
      → Yields
          (merge x (aggregate a e) b p q)
          (λ m. load x (m.written ++ r) ≡ some (both (merge_fn x a true) v s w t, s || t, r))
  unfolding merge
  load-merge a e b p q r rest rest_p rest_q v s w t h i j k =
      rw (i, j, fits x h) (load-cell_merged a b r rest v s w t h k)
