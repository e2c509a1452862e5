-- ===== src/Cluster/Query/Accounts/Keeps.antt =====
-- cluster_query.go: the rounds of `queryCluster` that are not the end of a partition.
use zenodb.Prelude.{
  ℕ, ◌≡◌, refl, Bool, true, false, ◌||◌, Option, none, some, List, [], ◌∷◌, arith, ◌>>=◌, inl, inr,
  Bool-cases, Option-cases,
}
use zenodb.Prelude.Assoc.{int_key, get}
use zenodb.Core.{is_some}
use zenodb.Cluster.Mapper.{Fields, Vals}
use zenodb.Cluster.Query.{
  RemoteResult, Client, Progress, Outcome, going, done, fail, announced, mapped, after_row,
  after_flat_row, take_fields, take_row, take_flat_row, take_result, fail_all,
}
use zenodb.Cluster.Query.Accounts.{has, has-added, nothing_else}

module _ {S E : Type 0} (p : ℕ) where
  -- A step that is not the end of a partition.
  unfoldable pub Keeps : Progress S E → Progress S E → Type 0
  Keeps q q' =
      (q'.waiting ≡ q.waiting)
      × (q'.pending ≡ q.pending)
      × (has p q.missing ≡ true → has p q'.missing ≡ true)

  fail-Keeps : (a : ℕ) (err : Option E) (q : Progress S E) → Keeps q (fail a err q)
  unfolding Keeps fail
  fail-Keeps a err q = (refl, refl, λ h. ground (arith, has-added p a q.missing, h))

  announced-Keeps : (a : ℕ) (r : S × Option E) (q : Progress S E) → Keeps q (announced a r q)
  unfolding Keeps announced
  announced-Keeps a (s, none) q = (refl, refl, λ h. h)
  announced-Keeps a (s, some e) q = fail-Keeps a (some e) q

  after_row-Keeps : (a : ℕ) (r : S × Bool × Option E) (q : Progress S E) → Keeps q (after_row a r q)
  unfolding Keeps after_row
  after_row-Keeps a (s, more, some e) q = (refl, refl, λ h. h)
  after_row-Keeps a (s, true, none) q = (refl, refl, λ h. h)
  after_row-Keeps a (s, false, none) q = fail-Keeps a none (record q { client = s })

  unfoldable pub KeepsOutcome : Progress S E → Option (Outcome S E) → Type 0
  unfolding Keeps
  KeepsOutcome q none = Unit {0}
  KeepsOutcome q (some (going q')) = Keeps q q'
  KeepsOutcome q (some (done s st (some e))) = Unit {0}
  KeepsOutcome q (some (done s st none)) = ⊥

  module _ {Row : Type 0} (c : Client S E Row) (exceeded : E) where
    take_fields-Keeps :
        (o : Option Fields) (a : ℕ) (fields : Fields) (q : Progress S E)
        → Keeps q (take_fields c exceeded o a fields q)
    unfolding Keeps take_fields mapped
    take_fields-Keeps (some f) a fields q = (refl, refl, λ h. h)
    take_fields-Keeps none a fields q = announced-Keeps a (c.on_fields q.client fields) q

    take_row-Keeps :
        (a : ℕ) (key : List ℕ) (vals : Vals) (q : Progress S E)
        → KeepsOutcome q (take_row c exceeded a key vals q >>= λ q'. some (going q'))
    unfolding Keeps KeepsOutcome take_row
    take_row-Keeps a key vals q = elim (Bool-cases (q.stopped || is_some q.final_err)) [
      | inl e ↦ rw e (refl, refl, λ h. h)
      | inr e ↦ rw e (elim (Option-cases (get a q.partition_row_mappers)) [
        | inl g ↦ rw g tt
        | inr (m, g) ↦ rw g (elim (Option-cases (m vals)) [
          | inl v ↦ rw v tt
          | inr (out, v) ↦ rw v (after_row-Keeps a (c.on_row q.client (key, out)) q)
        ])
      ])
    ]

    after_flat_row-Keeps :
        (a : ℕ) (r : S × Bool × Option E) (q : Progress S E)
        → KeepsOutcome q (some (after_flat_row a r q))
    unfolding Keeps KeepsOutcome after_flat_row
    after_flat_row-Keeps a (s, more, some e) q = tt
    after_flat_row-Keeps a (s, true, none) q = (refl, refl, λ h. h)
    after_flat_row-Keeps a (s, false, none) q = (refl, refl, λ h. h)

    take_flat_row-Keeps :
        (a : ℕ) (row : Row) (q : Progress S E)
        → KeepsOutcome q (some (take_flat_row c exceeded a row q))
    unfolding Keeps KeepsOutcome take_flat_row
    take_flat_row-Keeps a row q = elim (Bool-cases (q.stopped || is_some q.final_err)) [
      | inl e ↦ rw e (refl, refl, λ h. h)
      | inr e ↦
          rw e
            (after_flat_row-Keeps a (c.on_flat_row q.client (row, get a q.fields_by_partition)) q)
    ]

    pub take_result-Keeps :
        (fields : Option Fields) (key : Option (List ℕ)) (row : Option Row) (r : RemoteResult E Row)
        (q : Progress S E)
        → nothing_else fields key row ≡ false
        → KeepsOutcome q (take_result c exceeded fields key row r q)
    unfolding KeepsOutcome nothing_else take_result
    take_result-Keeps (some f) key row r q h = take_fields-Keeps q.canonical_fields r.partition f q
    take_result-Keeps none (some key) row r q h = take_row-Keeps r.partition key r.vals q
    take_result-Keeps none none (some row) r q h = take_flat_row-Keeps r.partition row q
    take_result-Keeps none none none r q h = ground arith

    pub fail_all-missing :
        (ps : List ℕ) (q : Progress S E)
        → (has p ps || has p q.missing) ≡ true
        → has p (fail_all c exceeded ps q).missing ≡ true
    unfolding fail_all fail
    fail_all-missing [] q h = h
    fail_all-missing (a ∷ ps) q h =
        fail_all-missing ps (fail a (some exceeded) q) (ground (arith, has-added p a q.missing, h))
