-- ===== src/Bytetree/Walk.antt =====
-- bytetree/bytetree.go: `Walk`, the breadth-first visit of the nodes that a context sees.
use mathlib.Core.List.{Perm, append_assoc, append-nil, perm_append_comm}
use mathlib.Core.List.Perm
use zenodb.Prelude.{
  ℕ, zero, suc, ◌+◌, ◌<◌, ◌≡◌, refl, ap, Bool, true, false, ◌||◌, not, Option, none, some, List, [],
  ◌∷◌, ◌++◌, arith, if◌then◌else◌, inl, inr, Option-cases, Bool-cases,
}
use zenodb.Bytetree.{Node, Edges, node, none_left, edge, was_removed_for, remove_edges, Tree}

-- What the callback returns: its new state beside `more`, `keep` and `err`.
pub record Answer (S E : Type 0) : Type 0 where
  pub state : S
  pub more : Bool
  pub keep : Bool
  pub error : Option E

abbrev pub is_some : {E : Type 0} → Option E → Bool
is_some none = false
is_some (some e) = true

-- A node of the tree with the labels that lead to it, which stand for its address.
abbrev pub Place : Type 0 → Type 0
Place D = List ℕ × Node D

-- The targets of a node's edges, in order.
unfoldable pub targets : {D : Type 0} → List ℕ → Edges D → List (Place D)
targets path none_left = []
targets path (edge label target rest) = (path ++ label, target) ∷ targets path rest

-- The data of a node that the context is shown: `n.data != nil` and not `wasRemovedFor`.
unfoldable pub shown : {D : Type 0} → ℕ → Option D → List ℕ → Option D
shown ctx none gone = none
shown ctx (some d) gone = if was_removed_for gone ctx then none else some d

-- A call of the callback: the address of the node, its key and its data.
abbrev pub Call : Type 0 → Type 0
Call D = List ℕ × List ℕ × D

-- The loop of `Walk`. The queue is `nodes`, and `root` is the tree with the removals so far.
-- `none` stands for fuel that ran out.
module _ {D S E : Type 0} (ctx : ℕ) (fn : S → List ℕ → D → Answer S E) where
  -- The tree after one call of the callback: `doRemoveFor` on the node unless it is kept.
  pub marked : Bool → List ℕ → Edges D → Edges D
  marked keep path root = if keep then root else (remove_edges ctx root path).0

  unfoldable pub walk_from : ℕ → Edges D → List (Place D) → S → Option (Edges D × S × Option E)
  walk_from zero root nodes s = none
  walk_from (suc fuel) root [] s = some (root, s, none)
  walk_from (suc fuel) root ((path, node k es d gone) ∷ nodes) s = elim (shown ctx d gone) [
    | none ↦ walk_from fuel root (nodes ++ targets path es) s
    | some found ↦
        (let a = fn s k found in
          let root' = marked a.keep path root in
          elim (not a.more || is_some a.error) [
            | true ↦ some (root', a.state, a.error)
            | false ↦ walk_from fuel root' (nodes ++ targets path es) a.state
          ])
  ]

  -- Calling the callback on a list of nodes in turn, with its removals, until it asks to stop.
  pub call_each : Edges D → S → List (Call D) → Edges D × S × Option E
  call_each root s [] = (root, s, none)
  call_each root s ((path, k, found) ∷ calls) =
      (let a = fn s k found in
        let root' = marked a.keep path root in
        elim (not a.more || is_some a.error) [
          | true ↦ (root', a.state, a.error)
          | false ↦ call_each root' a.state calls
        ])

module _ {D : Type 0} where
  -- The nodes below, counted.
  unfoldable pub count_edges : Edges D → ℕ
  count_edges none_left = 0
  count_edges (edge label (node k es d gone) rest) = 1 + count_edges es + count_edges rest

  pub count_nodes : List (Place D) → ℕ
  count_nodes [] = 0
  count_nodes ((path, node k es d gone) ∷ nodes) = 1 + count_edges es + count_nodes nodes

  module _ (ctx : ℕ) where
    unfoldable pub call_of : List ℕ → List ℕ → Option D → List (Call D)
    call_of path k none = []
    call_of path k (some d) = (path, k, d) ∷ []

    -- What the context is shown below, listed by depth.
    unfoldable pub shown_below : List ℕ → Edges D → List (Call D)
    shown_below path none_left = []
    shown_below path (edge label (node k es d gone) rest) =
        call_of (path ++ label) k (shown ctx d gone)
        ++ (shown_below (path ++ label) es ++ shown_below path rest)

    pub shown_at : List (Place D) → List (Call D)
    shown_at [] = []
    shown_at ((path, node k es d gone) ∷ nodes) =
        call_of path k (shown ctx d gone) ++ (shown_below path es ++ shown_at nodes)

    shown_at-targets :
        (path : List ℕ) (es : Edges D) → shown_at (targets path es) ≡ shown_below path es
    unfolding shown_at shown_below targets
    shown_at-targets path none_left = refl
    shown_at-targets path (edge label (node k es d gone) rest) =
        ap
          (λ l.
            call_of (path ++ label) k (shown ctx d gone) ++ (shown_below (path ++ label) es ++ l))
          (shown_at-targets path rest)

    shown_at-append : (ns ms : List (Place D)) → shown_at (ns ++ ms) ≡ shown_at ns ++ shown_at ms
    unfolding shown_at
    shown_at-append [] ms = refl
    shown_at-append ((path, node k es d gone) ∷ ns) ms = simp (shown_at-append ns ms, append_assoc)

  count_nodes-targets :
      (path : List ℕ) (es : Edges D) → count_nodes (targets path es) ≡ count_edges es
  unfolding count_nodes count_edges targets
  count_nodes-targets path none_left = refl
  count_nodes-targets path (edge label (node k es d gone) rest) =
      omega (arith, count_nodes-targets path rest)

  count_nodes-append :
      (ns ms : List (Place D)) → count_nodes (ns ++ ms) ≡ count_nodes ns + count_nodes ms
  unfolding count_nodes
  count_nodes-append [] ms = omega arith
  count_nodes-append ((path, node k es d gone) ∷ ns) ms = omega (arith, count_nodes-append ns ms)

module _ {D S E : Type 0} (ctx : ℕ) (fn : S → List ℕ → D → Answer S E) where
  -- The queue after a node was taken off holds what it held and what is below that node.
  queue_perm :
      (path : List ℕ) (es : Edges D) (nodes : List (Place D)) (calls : List (Call D))
      → Perm calls (shown_at ctx (nodes ++ targets path es))
      → Perm calls (shown_below ctx path es ++ shown_at ctx nodes)
  queue_perm path es nodes calls p =
      Perm.trans (rw (shown_at-append, shown_at-targets) at p)
        (perm_append_comm (shown_at ctx nodes) (shown_below ctx path es))

  queue_count :
      (path : List ℕ) (es : Edges D) (nodes : List (Place D)) (fuel : ℕ)
      → 1 + count_edges es + count_nodes nodes < suc fuel
      → count_nodes (nodes ++ targets path es) < fuel
  queue_count path es nodes fuel h =
      omega (arith, count_nodes-append nodes (targets path es), count_nodes-targets path es)

  -- With more fuel than nodes the loop ends, having called the callback on each node that the
  -- context is shown, in some order, for as long as it asked for more.
  pub walk_from_lem :
      (fuel : ℕ) (root : Edges D) (nodes : List (Place D)) (s : S)
      → count_nodes nodes < fuel
      → (calls : List (Call D)) × Perm calls (shown_at ctx nodes)
        × (walk_from ctx fn fuel root nodes s ≡ some (call_each ctx fn root s calls))
  unfolding walk_from call_each shown_at count_nodes call_of
  walk_from_lem zero root nodes s h = absurd (omega arith)
  walk_from_lem (suc fuel) root [] s h = ([], Perm.refl [], refl)
  walk_from_lem (suc fuel) root ((path, node k es d gone) ∷ nodes) s h =
      elim (Option-cases (shown ctx d gone)) [
        | inl e ↦
            (let (calls, p, q) =
                walk_from_lem fuel root (nodes ++ targets path es) s
                  (queue_count path es nodes fuel h) in
              (calls, rw e (queue_perm path es nodes calls p), rw (e, walk_from) q))
        | inr (found, e) ↦
            elim (Bool-cases (not (fn s k found).more || is_some (fn s k found).error)) [
              | inl f ↦ (
                (path, k, found) ∷ (shown_below ctx path es ++ shown_at ctx nodes),
                rw e (Perm.refl _),
                rw (e, walk_from) (rw (f, call_each)),
              )
              | inr f ↦
                  (let (calls, p, q) =
                      walk_from_lem fuel (marked ctx fn (fn s k found).keep path root)
                        (nodes ++ targets path es) (fn s k found).state
                        (queue_count path es nodes fuel h) in
                    (
                      (path, k, found) ∷ calls,
                      rw e (Perm.cons (path, k, found) (queue_perm path es nodes calls p)),
                      rw (e, walk_from) (rw (f, call_each) q),
                    ))
            ]
      ]

-- `Tree.Walk`: from the root, which has no key and no data. The fuel is the number of nodes, and one
-- more for the test that ends the loop.
unfoldable pub walk :
    {D S E : Type 0}
    → ℕ
    → (S → List ℕ → D → Answer S E)
    → Tree D
    → S
    → Option (Edges D × S × Option E)
unfolding walk_from count_edges
walk ctx fn t s =
    walk_from ctx fn (2 + count_edges t.root) t.root (([], node [] t.root none []) ∷ []) s

-- `Walk` ends, and makes the calls of some order of what the context is shown.
pub walk_lem :
    {D S E : Type 0} (ctx : ℕ) (fn : S → List ℕ → D → Answer S E) (t : Tree D) (s : S)
    → (calls : List (Call D)) × Perm calls (shown_below ctx [] t.root)
      × (walk ctx fn t s ≡ some (call_each ctx fn t.root s calls))
unfolding walk shown_at count_nodes call_of shown
walk_lem ctx fn t s =
    let (calls, p, q) =
      walk_from_lem ctx fn (2 + count_edges t.root) t.root (([], node [] t.root none []) ∷ []) s
        (omega arith) in
    (calls, rw append-nil at p, q)
