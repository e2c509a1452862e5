-- ===== src/Rowstore/Process/InMemory.antt =====
-- row_store.go: an insert, as a change of what the memstore maps keys to.
use zenodb.Prelude.{ℕ, ◌≡◌, refl, true, some, List, list_eq, if◌then◌else◌}
use zenodb.Prelude.Int.{ℤ}
use zenodb.Prelude.Assoc.{Assoc, put}
use zenodb.Bytetree.{update}
use zenodb.Bytetree.Radix.{IsRadix}
use zenodb.Bytetree.Lookup.{at_path, at_path-update}
use zenodb.Encoding.Until.{Quotients}
use zenodb.Expr.{Outside, Expr}
use zenodb.Sequence.{Sequence}
use zenodb.Rowstore.Header.{source_key}
use zenodb.Rowstore.Store.{Memstore}
use zenodb.Rowstore.Process.{Insert, update_columns, columns_or_blank, update_tree, insert}

module _ (x : Outside) (q : Quotients) (resolution : ℕ)
    (added : List Sequence → List Sequence → ℤ) where
  -- An insert with a key, into a map of offsets and with columns that can be updated, gives a memstore in
  -- which the key has the updated columns and every other key the columns that it had. The offset is that of
  -- the source, and is marked as changed; the other sources keep theirs.
  pub insert_lem :
      (es : List (Expr x)) (i : Insert x) (ms : Memstore) (offsets : Assoc ℤ (List ℕ))
      (key : List ℕ) (cs : List Sequence)
      → IsRadix ms.tree.root
      → ms.offsets ≡ some offsets
      → i.key ≡ some key
      → update_columns x q resolution added i es
          (columns_or_blank x q resolution added es (at_path ms.tree.root key))
        ≡ some cs
      → (ms' : Memstore) × (insert x q resolution added es i ms ≡ some ms')
        × ((j : List ℕ)
            → at_path ms'.tree.root j ≡ (if list_eq j key then some cs else at_path ms.tree.root j))
        × (ms'.offsets ≡ some (put i.source i.offset offsets))
        × (ms'.offset_changed ≡ true)
  unfolding insert update_tree
  insert_lem es i ms offsets key cs h e k u =
      let old = columns_or_blank x q resolution added es (at_path ms.tree.root key) in
      (
        record ms {
          tree = (update (λ d. (cs, added old cs)) key ms.tree).0;
          offsets = some (put i.source i.offset offsets);
          offset_changed = true;
        },
        rw (insert, e, k, update_tree, u) refl,
        (λ j. at_path-update (λ d. (cs, added old cs)) key ms.tree j h),
        refl,
        refl,
      )
