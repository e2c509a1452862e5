-- ===== src/Cluster/Query/Ends.antt =====
-- cluster_query.go: the rounds of `queryCluster` do not panic on the results of partitions that send
-- their fields first.
pub mod Returns
use zenodb.Prelude.{
  ℕ, zero, suc, ◌+◌, ◌-◌, ◌<◌, ◌≤◌, ◌==◌, ap, ◌≡◌, refl, sym, ◌∙◌, Bool, true, false, ◌||◌, Option,
  none, some, List, [], ◌∷◌, arith, not, if◌then◌else◌, ◌>>=◌, ◌⊎◌, inl, inr, Bool-cases,
  Option-cases, Yields, Yields-some, Yields-map, length,
}
use mathlib.Core.Path.{subst}
use zenodb.Prelude.Int.{ℤ}
use zenodb.Prelude.Assoc.{int_key, get, put, get-put}
use zenodb.Core.{is_some}
use zenodb.Cluster.Mapper.{
  Fields, Vals, partition_row_mapper, value_of, has_field, value_of-partition_row_mapper,
}
use zenodb.Cluster.Query.{
  RemoteResult, QueryStats, Event, arrived, expired, Client, Progress, Outcome, going, done, fail,
  start, announced, mapped, after_row, after_flat_row, reported, take_fields, take_row,
  take_flat_row, take_result, fail_all, round, run, final_stats, next,
}
use zenodb.Cluster.Query.Accounts.{has, nothing_else}

-- The partitions whose fields are known by now.
unfoldable pub known_after : Option Fields → ℕ → List ℕ → List ℕ
known_after none p known = known
known_after (some fields) p known = p ∷ known

unfoldable pub FitsResult : ℕ → List ℕ → Option Fields → Option (List ℕ) → ℕ → Vals → Type 0
FitsResult w known (some fields) key p vals = length fields ≡ w
FitsResult w known none none p vals = Unit {0}
FitsResult w known none (some key) p vals = (length vals ≡ w) × (has p known ≡ true)

module _ {E Row : Type 0} where
  -- How many partitions send their last result.
  unfoldable pub finals : List (Event E Row) → ℕ
  unfolding nothing_else
  finals [] = 0
  finals (expired ∷ es) = finals es
  finals (arrived r ∷ es) =
      if nothing_else r.fields r.key r.flat_row then suc (finals es) else finals es

  -- All partitions have w fields, and a partition sends its fields before its rows, which are as wide.
  unfoldable pub Fits : ℕ → List ℕ → List (Event E Row) → Type 0
  unfolding known_after FitsResult
  Fits w known [] = Unit {0}
  Fits w known (expired ∷ es) = Unit {0}
  Fits w known (arrived r ∷ es) =
      FitsResult w known r.fields r.key r.partition r.vals
      × Fits w (known_after r.fields r.partition known) es

-- A mapper comes through for a row of this width.
pub IsMapper : ℕ → Option (Vals → Option Vals) → Type 0
IsMapper w none = ⊥
IsMapper w (some m) = (vals : Vals) → length vals ≡ w → Yields (m vals) (λ out. Unit {0})

pub CanonicalFits : ℕ → Option Fields → Type 0
CanonicalFits w none = Unit {0}
CanonicalFits w (some fields) = length fields ≡ w

partition_row_mapper-IsMapper :
    (w : ℕ) (canonical fields : Fields)
    → length canonical ≡ w
    → IsMapper w (some (partition_row_mapper canonical fields))
unfolding IsMapper
partition_row_mapper-IsMapper w canonical fields h = λ vals k.
    Yields-map (partition_row_mapper canonical fields vals)
      (λ r.
        (length r ≡ length canonical)
        × ((f : List ℕ)
            → has_field f canonical ≡ true
            → value_of f canonical r ≡ value_of f fields vals))
      (λ r. Unit {0}) (value_of-partition_row_mapper canonical fields vals (k ∙ sym h)) (λ a p. tt)

module _ {S E : Type 0} (w : ℕ) where
  -- The mappers of the known partitions come through.
  pub IsReady : List ℕ → Progress S E → Type 0
  unfolding IsMapper CanonicalFits
  IsReady known q =
      CanonicalFits w q.canonical_fields
      × ((p : ℕ) → has p known ≡ true → IsMapper w (get p q.partition_row_mappers))

  -- The loop goes on with as many partitions, or returns.
  pub GoesOn : List ℕ → ℕ → Option (Outcome S E) → Type 0
  unfolding IsReady
  GoesOn known n none = ⊥
  GoesOn known n (some (going q)) = (q.pending ≡ n) × IsReady known q
  GoesOn known n (some (done s st err)) = Unit {0}

  announced-IsReady :
      (known : List ℕ) (p : ℕ) (r : S × Option E) (q : Progress S E)
      → IsReady known q
      → ((announced p r q).pending ≡ q.pending) × IsReady known (announced p r q)
  unfolding IsReady announced fail
  announced-IsReady known p (s, none) q h = (refl, h)
  announced-IsReady known p (s, some e) q h = (refl, h)

  after_row-IsReady :
      (known : List ℕ) (p : ℕ) (r : S × Bool × Option E) (q : Progress S E)
      → IsReady known q
      → ((after_row p r q).pending ≡ q.pending) × IsReady known (after_row p r q)
  unfolding IsReady after_row fail
  after_row-IsReady known p (s, more, some e) q h = (refl, h)
  after_row-IsReady known p (s, true, none) q h = (refl, h)
  after_row-IsReady known p (s, false, none) q h = (refl, h)

  mapped-IsReady :
      (known : List ℕ) (p : ℕ) (canonical fields : Fields) (q : Progress S E)
      → length canonical ≡ w
      → IsReady known q
      → IsReady (p ∷ known) (mapped p canonical fields q)
  unfolding IsReady mapped CanonicalFits
  mapped-IsReady known p canonical fields q l (c, h) = (
    l,
    λ i k.
        let e = get-put p (partition_row_mapper canonical fields) q.partition_row_mappers i in
        elim (Bool-cases (p == i)) [
          | inl t ↦ rw (e, t) (partition_row_mapper-IsMapper w canonical fields l)
          | inr t ↦ rw (e, t) (h i (ground (arith, k, t)))
        ],
  )

  module _ {Row : Type 0} (c : Client S E Row) (exceeded : E) where
    take_fields-IsReady :
        (o : Option Fields) (known : List ℕ) (p : ℕ) (fields : Fields) (q : Progress S E)
        → CanonicalFits w o
        → length fields ≡ w
        → IsReady known q
        → ((take_fields c exceeded o p fields q).pending ≡ q.pending)
          × IsReady (p ∷ known) (take_fields c exceeded o p fields q)
    unfolding take_fields CanonicalFits mapped
    take_fields-IsReady (some f) known p fields q l k h =
        (refl, mapped-IsReady known p f fields q l h)
    take_fields-IsReady none known p fields q l k h =
        let (n, r) = announced-IsReady known p (c.on_fields q.client fields) q h in
        (n, mapped-IsReady known p fields fields (announced p (c.on_fields q.client fields) q) k r)

    take_row_ready :
        (known : List ℕ) (p : ℕ) (key : List ℕ) (vals : Vals) (q : Progress S E)
        → (length vals ≡ w) × (has p known ≡ true)
        → IsReady known q
        → GoesOn known q.pending (take_row c exceeded p key vals q >>= λ q'. some (going q'))
    unfolding GoesOn IsReady take_row IsMapper
    take_row_ready known p key vals q (l, k) (f, h) =
        elim (Bool-cases (q.stopped || is_some q.final_err)) [
          | inl e ↦ rw e (refl, (f, h))
          | inr e ↦ rw e (elim (Option-cases (get p q.partition_row_mappers)) [
            | inl g ↦ absurd (subst (IsMapper w) g (h p k))
            | inr (m, g) ↦
                let (out, v, t) =
                  Yields-some (m vals) (λ z. Unit {0}) (subst (IsMapper w) g (h p k) vals l) in
                rw (g, v) (after_row-IsReady known p (c.on_row q.client (key, out)) q (f, h))
          ])
        ]

    after_flat_row_ready :
        (known : List ℕ) (p : ℕ) (r : S × Bool × Option E) (q : Progress S E)
        → IsReady known q
        → GoesOn known q.pending (some (after_flat_row p r q))
    unfolding GoesOn IsReady after_flat_row
    after_flat_row_ready known p (s, more, some e) q h = tt
    after_flat_row_ready known p (s, true, none) q h = (refl, h)
    after_flat_row_ready known p (s, false, none) q h = (refl, h)

    take_flat_row_ready :
        (known : List ℕ) (p : ℕ) (row : Row) (q : Progress S E)
        → IsReady known q
        → GoesOn known q.pending (some (take_flat_row c exceeded p row q))
    unfolding GoesOn take_flat_row
    take_flat_row_ready known p row q h = elim (Bool-cases (q.stopped || is_some q.final_err)) [
      | inl e ↦ rw e (refl, h)
      | inr e ↦ rw e (
          after_flat_row_ready known p (c.on_flat_row q.client (row, get p q.fields_by_partition)) q
            h)
    ]

    pub take_result_ready :
        (fields : Option Fields) (key : Option (List ℕ)) (row : Option Row) (known : List ℕ)
        (r : RemoteResult E Row) (q : Progress S E)
        → nothing_else fields key row ≡ false
        → FitsResult w known fields key r.partition r.vals
        → IsReady known q
        → GoesOn
            (known_after fields r.partition known)
            q.pending
            (take_result c exceeded fields key row r q)
    unfolding GoesOn nothing_else FitsResult known_after take_result IsReady
    take_result_ready (some f) key row known r q n k h =
        take_fields-IsReady q.canonical_fields known r.partition f q h.0 k h
    take_result_ready none (some key) row known r q n k h =
        take_row_ready known r.partition key r.vals q k h
    take_result_ready none none (some row) known r q n k h =
        take_flat_row_ready known r.partition row q h
    take_result_ready none none none known r q n k h = ground arith
