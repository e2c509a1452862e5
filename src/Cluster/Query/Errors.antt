-- ===== src/Cluster/Query/Errors.antt =====
-- cluster_query.go: what error `queryCluster` returns.
use zenodb.Prelude.{
  ℕ, ◌==◌, ap, ◌≡◌, refl, Bool, true, false, ◌||◌, Option, none, some, List, [], ◌∷◌, arith, ◌>>=◌,
  inl, inr, Bool-cases, Option-cases,
}
use mathlib.Core.Path.{subst}
use zenodb.Prelude.Int.{ℤ}
use zenodb.Prelude.Assoc.{int_key, get}
use zenodb.Core.{is_some}
use zenodb.Cluster.Mapper.{Fields, Vals}
use zenodb.Cluster.Query.{
  RemoteResult, QueryStats, Event, arrived, expired, Client, Progress, Outcome, going, done, fail,
  start, announced, mapped, after_row, after_flat_row, reported, take_fields, take_row,
  take_flat_row, take_result, next, fail_all, round, run, final_stats,
}

module _ {S E : Type 0} where
  fail-none :
      (p : ℕ) (err : Option E) (q : Progress S E)
      → q.final_err ≡ none
      → (fail p err q).final_err ≡ none
  unfolding fail
  fail-none p err q h = rw h refl

  announced-none :
      (p : ℕ) (a : S × Option E) (q : Progress S E)
      → q.final_err ≡ none
      → (announced p a q).final_err ≡ none
  unfolding announced
  announced-none p (s, none) q h = h
  announced-none p (s, some e) q h = fail-none p (some e) (record q { client = s }) h

  after_row-none :
      (p : ℕ) (a : S × Bool × Option E) (q : Progress S E)
      → q.final_err ≡ none
      → (after_row p a q).final_err ≡ none
  unfolding after_row
  after_row-none p (s, more, some e) q h = h
  after_row-none p (s, true, none) q h = h
  after_row-none p (s, false, none) q h = fail-none p none (record q { client = s }) h

  fail_all-none :
      {Row : Type 0} (c : Client S E Row) (exceeded : E) (ps : List ℕ) (q : Progress S E)
      → q.final_err ≡ none
      → (fail_all c exceeded ps q).final_err ≡ none
  unfolding fail_all
  fail_all-none c exceeded [] q h = h
  fail_all-none c exceeded (p ∷ ps) q h =
      fail_all-none c exceeded ps (fail p (some exceeded) q) (fail-none p (some exceeded) q h)

  reported-none :
      (p : ℕ) (mark : ℤ) (err : Option E) (q : Progress S E)
      → q.final_err ≡ none
      → (reported p mark err q).final_err ≡ none
  unfolding reported
  reported-none p mark none q h = h
  reported-none p mark (some e) q h = fail-none p (some e) q h

module _ {S E Row : Type 0} (c : Client S E Row) (exceeded : E) where
  take_fields-none :
      (o : Option Fields) (p : ℕ) (fields : Fields) (q : Progress S E)
      → q.final_err ≡ none
      → (take_fields c exceeded o p fields q).final_err ≡ none
  unfolding take_fields mapped
  take_fields-none (some f) p fields q h = h
  take_fields-none none p fields q h = announced-none p (c.on_fields q.client fields) q h

  -- A call of the callback for flat rows has returned this error.
  abbrev pub IsGiven : E → Type 0
  IsGiven e = (row : Row × Option Fields) × (t : S) × ((c.on_flat_row t row).2 ≡ some e)

  IsSound : Outcome S E → Type 0
  IsSound (going q) = q.final_err ≡ none
  IsSound (done s st none) = Unit {0}
  IsSound (done s st (some e)) = IsGiven e

  after_flat_row-IsSound :
      (p : ℕ) (row : Row × Option Fields) (t : S) (q : Progress S E) (a : S × Bool × Option E)
      → c.on_flat_row t row ≡ a
      → q.final_err ≡ none
      → IsSound (after_flat_row p a q)
  unfolding IsSound after_flat_row
  after_flat_row-IsSound p row t q (s, more, some e) k h = (row, t, ap (λ z. z.2) k)
  after_flat_row-IsSound p row t q (s, true, none) k h = h
  after_flat_row-IsSound p row t q (s, false, none) k h = h

  -- What a round gives, if it does not panic, is sound.
  AreSound : Option (Outcome S E) → Type 0
  unfolding IsSound
  AreSound none = Unit {0}
  AreSound (some o) = IsSound o

  take_row_sound :
      (p : ℕ) (key : List ℕ) (vals : Vals) (q : Progress S E)
      → q.final_err ≡ none
      → AreSound (take_row c exceeded p key vals q >>= λ q'. some (going q'))
  unfolding AreSound IsSound take_row
  take_row_sound p key vals q h = elim (Bool-cases (q.stopped || is_some q.final_err)) [
    | inl e ↦ rw e h
    | inr e ↦ rw e (elim (Option-cases (get p q.partition_row_mappers)) [
      | inl g ↦ rw g tt
      | inr (m, g) ↦ rw g (elim (Option-cases (m vals)) [
        | inl v ↦ rw v tt
        | inr (out, v) ↦ rw v (after_row-none p (c.on_row q.client (key, out)) q h)
      ])
    ])
  ]

  take_flat_row-IsSound :
      (p : ℕ) (row : Row) (q : Progress S E)
      → q.final_err ≡ none
      → IsSound (take_flat_row c exceeded p row q)
  unfolding IsSound take_flat_row
  take_flat_row-IsSound p row q h = elim (Bool-cases (q.stopped || is_some q.final_err)) [
    | inl e ↦ rw e h
    | inr e ↦
        let r : Row × Option Fields = (row, get p q.fields_by_partition) in
        rw e (after_flat_row-IsSound p r q.client q (c.on_flat_row q.client r) refl h)
  ]

  take_result_sound :
      (fields : Option Fields) (key : Option (List ℕ)) (row : Option Row) (r : RemoteResult E Row)
      (q : Progress S E)
      → q.final_err ≡ none
      → AreSound (take_result c exceeded fields key row r q)
  unfolding AreSound IsSound take_result
  take_result_sound (some f) key row r q h = take_fields-none q.canonical_fields r.partition f q h
  take_result_sound none (some key) row r q h = take_row_sound r.partition key r.vals q h
  take_result_sound none none (some row) r q h = take_flat_row-IsSound r.partition row q h
  take_result_sound none none none r q h = reported-none r.partition r.high_water_mark r.err q h

  ended-IsSound : (s : S) (st : QueryStats) (err : Option E) → err ≡ none → IsSound (done s st err)
  unfolding IsSound
  ended-IsSound s st none h = tt
  ended-IsSound s st (some e) h = ground (arith, h)

  round_sound :
      (e : Event E Row) (q : Progress S E) → q.final_err ≡ none → AreSound (round c exceeded e q)
  unfolding AreSound round
  round_sound (arrived r) q h = take_result_sound r.fields r.key r.flat_row r q h
  round_sound expired q h =
      let q' = fail_all c exceeded q.waiting q in
      ended-IsSound q'.client (final_stats q') q'.final_err (fail_all-none c exceeded q.waiting q h)

  next_sound :
      (o : Option (Outcome S E)) (f : Progress S E → Option (Outcome S E))
      → AreSound o
      → ((q : Progress S E) → q.final_err ≡ none → AreSound (f q))
      → AreSound (o >>= λ o'. next o' f)
  unfolding AreSound IsSound next
  next_sound none f k g = tt
  next_sound (some (going q)) f k g = g q k
  next_sound (some (done s st err)) f k g = k

  run_sound :
      (es : List (Event E Row)) (q : Progress S E)
      → q.final_err ≡ none
      → AreSound (run c exceeded es q)
  unfolding AreSound run IsSound
  run_sound [] q h = elim (Bool-cases (q.pending == 0)) [
    | inl e ↦ rw e (ended-IsSound q.client (final_stats q) q.final_err h)
    | inr e ↦ rw e h
  ]
  run_sound (e ∷ es) q h = elim (Bool-cases (q.pending == 0)) [
    | inl z ↦ rw z (ended-IsSound q.client (final_stats q) q.final_err h)
    | inr z ↦ rw z (
        next_sound (round c exceeded e q) (λ q'. run c exceeded es q') (round_sound e q h)
          (λ q' k. run_sound es q' k))
  ]

  -- Whatever comes over the channels, in whatever order, an error that `queryCluster` returns is one
  -- that the callback for flat rows gave: the errors of the partitions, of the other callbacks and of
  -- the end of the time are in no result.
  pub run-IsGiven :
      (n : ℕ) (s s' : S) (es : List (Event E Row)) (st : QueryStats) (e : E)
      → run c exceeded es (start n s) ≡ some (done s' st (some e))
      → IsGiven e
  unfolding AreSound IsSound start
  run-IsGiven n s s' es st e h = subst AreSound h (run_sound es (start n s) refl)
