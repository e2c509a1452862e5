-- ===== src/Bytetree.antt =====
-- bytetree/bytetree.go: the radix tree that holds the rows of a query and of a memstore.
pub mod Prefix
pub mod Radix
pub mod Lookup
pub mod Contexts
pub mod Walk
pub mod Keys
mod Tests
use zenodb.Prelude.{
  ℕ, zero, suc, ◌+◌, ◌-◌, ◌≡◌, Bool, true, false, ◌&&◌, ◌||◌, Option, none, some, List, [], ◌∷◌,
  ◌++◌, ltb, ◌==◌, if◌then◌else◌, length, take, drop,
}
use zenodb.Prelude.Int.{ℤ, pos, ◌+ℤ◌}

-- `node` and its `edges`. A node owns its key, its data (`none` is Go's nil) and the contexts
-- for which it was removed; each edge owns its label and its target.
mutual
  pub data Node (D : Type 0) : Type 0 where
    node : List ℕ → Edges D → Option D → List ℕ → Node D

  pub data Edges (D : Type 0) : Type 0 where
    none_left : Edges D
    edge : List ℕ → Node D → Edges D → Edges D

-- The loop `for ; i < keyLength && i < labelLength; i++`: where label and key part.
pub common : List ℕ → List ℕ → ℕ
common [] key = 0
common (l ∷ ls) [] = 0
common (l ∷ ls) (k ∷ ks) = if l == k then suc (common ls ks) else 0

-- The three tests on `i`, `labelLength` and `keyLength`, in the order of the source.
pub data Meeting : Type 0 where
  exact descend divide apart : Meeting

pub meet : List ℕ → List ℕ → Meeting
meet label key =
    let i = common label key in
    if (i == length key) && (length key == length label)
    then exact
    else if (i == length label) && ltb (length label) (length key)
    then descend
    else if ltb 0 i
    then divide
    else apart

-- `node.wasRemovedFor`, on the contexts in `removedFor`: context 0 sees every node.
unfoldable pub listed : List ℕ → ℕ → Bool
listed [] ctx = false
listed (c ∷ cs) ctx = c == ctx || listed cs ctx

unfoldable pub was_removed_for : List ℕ → ℕ → Bool
unfolding listed
was_removed_for gone ctx = if ctx == 0 then false else listed gone ctx

-- `node.doRemoveFor`.
pub do_remove_for : ℕ → List ℕ → List ℕ
do_remove_for ctx gone = if ctx == 0 then gone else gone ++ (ctx ∷ [])

-- `upd` stands for the body of `node.doUpdate`: it takes the node's data to the new data, and
-- says how many bytes that added. `full_key` is the key of the whole call.
module _ {D : Type 0} (upd : Option D → D × ℤ) (full_key : List ℕ) where
  -- `node.doUpdate`.
  pub do_update : Node D → Node D × ℤ
  do_update (node k es d gone) = let (d', bytes) = upd d in (node k es (some d') gone, bytes)

  -- `edge.split`, at the edge with the given label and target: the new target and the bytes.
  pub split : ℕ → List ℕ → Node D → List ℕ → Node D × ℤ
  split i label target key =
      if i == length key
      then (let (leaf, bytes) =
            do_update (node [] (edge (drop i label) target none_left) none []) in
          (leaf, pos (length key - i) +ℤ bytes))
      else (let (leaf, bytes) = do_update (node full_key none_left none []) in
          (
            node [] (edge (drop i label) target (edge (drop i key) leaf none_left)) none [],
            pos (length key - i) +ℤ bytes,
          ))

  -- `Tree.doUpdate`, from a node with these edges on: the edges, the bytes, and whether the
  -- call counts as a new node.
  pub update_edges : Edges D → List ℕ → Edges D × ℤ × Bool
  update_edges none_left key =
      let (target, bytes) = do_update (node full_key none_left none []) in
      (edge key target none_left, bytes +ℤ pos (length key), true)
  update_edges (edge label (node k es d gone) rest) key =
      let below = update_edges es (drop (length label) key) in
      let beside = update_edges rest key in
      elim (meet label key) [
        | exact ↦
            (let (target, bytes) = do_update (node k es d gone) in
              (edge label target rest, bytes, false))
        | descend ↦ (edge label (node k below.0 d gone) rest, below.1, below.2)
        | divide ↦
            (let (target, bytes) = split (common label key) label (node k es d gone) key in
              (edge (take (common label key) label) target rest, bytes, true))
        | apart ↦ (edge label (node k es d gone) beside.0, beside.1, beside.2)
      ]

-- `Tree`, without its parameters for `node.doUpdate`, which are in `upd`. The root has no key
-- and no data, so it is its edges.
pub record Tree (D : Type 0) : Type 0 where
  pub root : Edges D
  pub bytes : ℤ
  pub size : ℕ

-- `New`.
unfoldable pub empty : {D : Type 0} → Tree D
empty = record { root = none_left; bytes = pos 0; size = 0 }

-- `Tree.Update`.
pub update : {D : Type 0} → (Option D → D × ℤ) → List ℕ → Tree D → Tree D × ℤ
update upd key t =
    let (root', added, new) = update_edges upd key t.root key in
    (
      record { root = root'; bytes = t.bytes +ℤ added; size = if new then t.size + 1 else t.size },
      added,
    )

-- `Tree.Remove`, from a node with these edges on: the edges, and the data of the removed node.
pub remove_edges : {D : Type 0} → ℕ → Edges D → List ℕ → Edges D × Option D
remove_edges ctx none_left key = (none_left, none)
remove_edges ctx (edge label (node k es d gone) rest) key =
    let below = remove_edges ctx es (drop (length label) key) in
    let beside = remove_edges ctx rest key in
    elim (meet label key) [
      | exact ↦
          if was_removed_for gone ctx
          then (edge label (node k es d gone) rest, none)
          else (edge label (node k es d (do_remove_for ctx gone)) rest, d)
      | descend ↦ (edge label (node k below.0 d gone) rest, below.1)
      | divide ↦ (edge label (node k es d gone) beside.0, beside.1)
      | apart ↦ (edge label (node k es d gone) beside.0, beside.1)
    ]

-- `Tree.Remove`.
pub remove : {D : Type 0} → ℕ → List ℕ → Tree D → Tree D × Option D
remove ctx key t =
    let (root', found) = remove_edges ctx t.root key in (record t { root = root' }, found)

-- `Tree.Copy` below a node: the copies keep keys, labels and data, and no removals.
pub copy_edges : {D : Type 0} → Edges D → Edges D
copy_edges none_left = none_left
copy_edges (edge label (node k es d gone) rest) =
    edge label (node k (copy_edges es) d []) (copy_edges rest)

-- `Tree.Copy`.
pub copy : {D : Type 0} → Tree D → Tree D
copy t = record t { root = copy_edges t.root }
