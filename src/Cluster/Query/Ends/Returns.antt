-- ===== src/Cluster/Query/Ends/Returns.antt =====
-- cluster_query.go: `queryCluster` returns when all partitions have reported.
use zenodb.Prelude.{
  ℕ, suc, ◌-◌, ◌≤◌, ◌==◌, ◌≡◌, refl, true, Option, none, some, List, [], ◌∷◌, arith, if◌then◌else◌,
  ◌>>=◌, inl, inr, Bool-cases,
}
use mathlib.Core.Path.{subst}
use zenodb.Prelude.Int.{ℤ}
use zenodb.Prelude.Assoc.{int_key}
use zenodb.Cluster.Mapper.{Fields}
use zenodb.Cluster.Query.{
  QueryStats, Event, arrived, expired, Client, Progress, Outcome, going, done, fail, start,
  reported, take_result, round, run, next,
}
use zenodb.Cluster.Query.Accounts.{nothing_else, take_final}
use zenodb.Cluster.Query.Ends.{finals, known_after, Fits, IsReady, GoesOn, take_result_ready}

module _ {S E Row : Type 0} (c : Client S E Row) (exceeded : E) (w : ℕ) where
  Returns : Option (Outcome S E) → Type 0
  Returns none = ⊥
  Returns (some (going q)) = ⊥
  Returns (some (done s st err)) = Unit {0}

  after_round :
      (known : List ℕ) (n : ℕ) (es : List (Event E Row)) (o : Option (Outcome S E))
      → GoesOn w known n o
      → ((q : Progress S E) → q.pending ≡ n → IsReady w known q → Returns (run c exceeded es q))
      → Returns (o >>= λ o'. next o' (λ q'. run c exceeded es q'))
  unfolding Returns GoesOn next
  after_round known n es none h f = absurd h
  after_round known n es (some (going q)) h f = f q h.0 h.1
  after_round known n es (some (done s st err)) h f = tt

  reported-IsReady :
      (known : List ℕ) (p : ℕ) (mark : ℤ) (err : Option E) (q : Progress S E)
      → IsReady w known q
      → ((reported p mark err q).pending ≡ q.pending - 1) × IsReady w known (reported p mark err q)
  unfolding IsReady reported fail
  reported-IsReady known p mark none q h = (refl, h)
  reported-IsReady known p mark (some e) q h = (refl, h)

  known_same :
      (fields : Option Fields) (key : Option (List ℕ)) (row : Option Row) (p : ℕ) (known : List ℕ)
      → nothing_else fields key row ≡ true
      → known_after fields p known ≡ known
  unfolding nothing_else known_after
  known_same (some f) key row p known h = ground arith
  known_same none key row p known h = refl

  run-Returns :
      (es : List (Event E Row)) (known : List ℕ) (q : Progress S E)
      → IsReady w known q
      → Fits w known es
      → q.pending ≤ finals es
      → Returns (run c exceeded es q)
  unfolding Returns run Fits finals round next
  run-Returns [] known q h f l = let z : (q.pending == 0) ≡ true = ground (arith, l) in rw z tt
  run-Returns (expired ∷ es) known q h f l = elim (Bool-cases (q.pending == 0)) [
    | inl z ↦ rw z tt
    | inr z ↦ rw z tt
  ]
  run-Returns (arrived r ∷ es) known q h f l = elim (Bool-cases (q.pending == 0)) [
    | inl z ↦ rw z tt
    | inr z ↦ elim (Bool-cases (nothing_else r.fields r.key r.flat_row)) [
      | inl t ↦
          let (n, g) = reported-IsReady known r.partition r.high_water_mark r.err q h in
          let k = known_same r.fields r.key r.flat_row r.partition known t in
          let m : q.pending ≤ suc (finals es) =
            subst (λ b. q.pending ≤ (if b then suc (finals es) else finals es)) t l in
          rw (z, take_final c exceeded r.fields r.key r.flat_row r q t)
            (run-Returns es known (reported r.partition r.high_water_mark r.err q) g
              (subst (λ ks. Fits w ks es) k f.1) (omega (arith, m, n)))
      | inr t ↦
          let m : q.pending ≤ finals es =
            subst (λ b. q.pending ≤ (if b then suc (finals es) else finals es)) t l in
          let known' = known_after r.fields r.partition known in
          rw z (
            after_round known' q.pending es (take_result c exceeded r.fields r.key r.flat_row r q)
              (take_result_ready w c exceeded r.fields r.key r.flat_row known r q t f.0 h)
              (λ q' e g. run-Returns es known' q' g f.1 (omega (arith, m, e))))
    ]
  ]

  Returns-done :
      (o : Option (Outcome S E))
      → Returns o
      → (s : S) × (st : QueryStats) × (err : Option E) × (o ≡ some (done s st err))
  unfolding Returns
  Returns-done none h = absurd h
  Returns-done (some (going q)) h = absurd h
  Returns-done (some (done s st err)) h = (s, st, err, refl)

  -- Where all partitions have the same number of fields, send them before their rows, and send rows
  -- as wide: when as many last results have come as there are partitions, in whatever order and with
  -- whatever errors, the query has returned, and nothing has panicked.
  pub run-done :
      (n : ℕ) (s : S) (es : List (Event E Row))
      → Fits w [] es
      → n ≤ finals es
      → (s' : S) × (st : QueryStats) × (err : Option E) × (run c exceeded es (start n s)
          ≡ some (done s' st err))
  unfolding start IsReady
  run-done n s es f l =
      Returns-done (run c exceeded es (start n s))
        (run-Returns es [] (start n s) (tt, λ p h. ground arith) f l)
