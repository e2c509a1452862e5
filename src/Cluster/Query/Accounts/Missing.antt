-- ===== src/Cluster/Query/Accounts/Missing.antt =====
-- cluster_query.go: the partitions that `queryCluster` does not call missing have answered.
use zenodb.Prelude.{
  ℕ, ◌<◌, ◌==◌, ap, ◌≡◌, sym, ◌∙◌, true, false, ◌||◌, ◌&&◌, Option, none, some, List, [], ◌∷◌,
  arith, not, if◌then◌else◌, ◌>>=◌, ◌⊎◌, inl, inr, Bool-cases, length,
}
use mathlib.Core.Path.{subst}
use zenodb.Prelude.Int.{ℤ}
use zenodb.Prelude.Assoc.{int_key}
use zenodb.Core.{is_some}
use zenodb.Cluster.Query.{
  QueryStats, Event, arrived, expired, Client, Progress, Outcome, going, done, fail, start,
  reported, take_result, fail_all, round, run, final_stats, next, without, partitions_below,
}
use zenodb.Cluster.Query.Accounts.{
  has, has-added, has-without, length-without, has-partitions_below, length-partitions_below,
  nothing_else, answered, ReportOnce, take_final,
}
use zenodb.Cluster.Query.Accounts.Keeps.{Keeps, KeepsOutcome, take_result-Keeps, fail_all-missing}

module _ {S E Row : Type 0} (c : Client S E Row) (exceeded : E) (p : ℕ) where
  -- The partition is missing or is waited for.
  IsOpen : Progress S E → Type 0
  IsOpen q = ((has p q.missing || has p q.waiting) ≡ true) × (q.pending ≡ length q.waiting)

  -- The partition is missing in what is returned without an error, or it has answered.
  Accounts : List (Event E Row) → Option (Outcome S E) → Type 0
  Accounts es none = Unit {0}
  Accounts es (some (going q)) = Unit {0}
  Accounts es (some (done s st (some e))) = Unit {0}
  Accounts es (some (done s st none)) = (has p st.missing_partitions || answered p es) ≡ true

  Accounts-missing :
      (es : List (Event E Row)) (s : S) (st : QueryStats) (err : Option E)
      → (has p st.missing_partitions || answered p es) ≡ true
      → Accounts es (some (done s st err))
  unfolding Accounts
  Accounts-missing es s st none h = h
  Accounts-missing es s st (some e) h = tt

  Accounts-answered :
      (es es' : List (Event E Row)) (o : Option (Outcome S E))
      → (answered p es ≡ true → answered p es' ≡ true)
      → Accounts es o
      → Accounts es' o
  unfolding Accounts
  Accounts-answered es es' none k h = tt
  Accounts-answered es es' (some (going q)) k h = tt
  Accounts-answered es es' (some (done s st (some e))) k h = tt
  Accounts-answered es es' (some (done s st none)) k h = ground (arith, k, h)

  Accounts-always :
      (es : List (Event E Row)) (o : Option (Outcome S E)) → answered p es ≡ true → Accounts es o
  unfolding Accounts
  Accounts-always es none h = tt
  Accounts-always es (some (going q)) h = tt
  Accounts-always es (some (done s st (some e))) h = tt
  Accounts-always es (some (done s st none)) h = ground (arith, h)

  none_waiting : (q : Progress S E) → IsOpen q → q.pending ≡ 0 → has p q.missing ≡ true
  unfolding IsOpen
  none_waiting q (h, k) z = go q.waiting h (omega (arith, k, z))
    where
      go :
          (ws : List ℕ)
          → (has p q.missing || has p ws) ≡ true
          → length ws ≡ 0
          → has p q.missing ≡ true
      go [] g l = ground (arith, g)
      go (w ∷ ws) g l = absurd (omega arith)

  waiting_still : (q q' : Progress S E) → Keeps p q q' → IsOpen q → IsOpen q'
  unfolding IsOpen Keeps
  waiting_still q q' (w, n, k) (h, l) =
      let e : (has p q'.missing || has p q.waiting) ≡ true = ground (arith, k, h) in
      (subst (λ ws. (has p q'.missing || has p ws) ≡ true) (sym w) e, n ∙ l ∙ ap length (sym w))

  failed-IsOpen :
      (a : ℕ) (err : E) (q : Progress S E) (mark : ℤ)
      → has a q.waiting ≡ true
      → IsOpen q
      → IsOpen (reported a mark (some err) q)
  unfolding IsOpen reported fail
  failed-IsOpen a err q mark h (k, l) = (
    ground (arith, has-added p a q.missing, has-without p a q.waiting, k),
    omega (arith, length-without a q.waiting h, l),
  )

  answered-IsOpen :
      (a : ℕ) (q : Progress S E) (mark : ℤ)
      → has a q.waiting ≡ true
      → (p == a) ≡ false
      → IsOpen q
      → IsOpen (reported a mark none q)
  unfolding IsOpen reported
  answered-IsOpen a q mark h n (k, l) = (
    ground (arith, has-without p a q.waiting, k, n),
    omega (arith, length-without a q.waiting h, l),
  )

  ended :
      (es : List (Event E Row)) (q : Progress S E)
      → IsOpen q
      → (q.pending == 0) ≡ true
      → Accounts es (some (done q.client (final_stats q) q.final_err))
  unfolding final_stats
  ended es q o z =
      let h = none_waiting q o (ground (arith, z)) in
      Accounts-missing es q.client (final_stats q) q.final_err (ground (arith, h))

  time_over :
      (es : List (Event E Row)) (q : Progress S E)
      → IsOpen q
      → Accounts es (round c exceeded expired q)
  unfolding IsOpen round final_stats
  time_over es q (h, l) =
      let q' = fail_all c exceeded q.waiting q in
      let m = fail_all-missing p c exceeded q.waiting q (ground (arith, h)) in
      Accounts-missing es q'.client (final_stats q') q'.final_err (ground (arith, m))

  after_kept :
      (es : List (Event E Row)) (q : Progress S E) (o : Option (Outcome S E))
      → KeepsOutcome p q o
      → IsOpen q
      → ReportOnce q.waiting es
      → ((q' : Progress S E)
          → IsOpen q'
          → ReportOnce q'.waiting es
          → Accounts es (run c exceeded es q'))
      → Accounts es (o >>= λ o'. next o' (λ q'. run c exceeded es q'))
  unfolding Accounts KeepsOutcome Keeps next
  after_kept es q none k o g f = tt
  after_kept es q (some (going q')) k o g f =
      f q' (waiting_still q q' k o) (subst (λ ws. ReportOnce ws es) (sym k.0) g)
  after_kept es q (some (done s st (some e))) k o g f = tt
  after_kept es q (some (done s st none)) k o g f = absurd k

  after_final :
      (a : ℕ) (mark : ℤ) (err : Option E) (es es' : List (Event E Row)) (q : Progress S E)
      → has a q.waiting ≡ true
      → IsOpen q
      → ReportOnce (without a q.waiting) es
      → (answered p es ≡ true → answered p es' ≡ true)
      → ((not (is_some err) && (p == a)) ≡ true → answered p es' ≡ true)
      → ((q' : Progress S E)
          → IsOpen q'
          → ReportOnce q'.waiting es
          → Accounts es (run c exceeded es q'))
      → Accounts es' (run c exceeded es (reported a mark err q))
  unfolding reported
  after_final a mark (some e) es es' q h o g k k' f =
      Accounts-answered es es' (run c exceeded es (reported a mark (some e) q)) k
        (f (reported a mark (some e) q) (failed-IsOpen a e q mark h o) g)
  after_final a mark none es es' q h o g k k' f = elim (Bool-cases (p == a)) [
    | inl e ↦ Accounts-always es' (run c exceeded es (reported a mark none q)) (k' e)
    | inr e ↦
        Accounts-answered es es' (run c exceeded es (reported a mark none q)) k
          (f (reported a mark none q) (answered-IsOpen a q mark h e o) g)
  ]

  run-Accounts_from :
      (es : List (Event E Row)) (q : Progress S E)
      → IsOpen q
      → ReportOnce q.waiting es
      → Accounts es (run c exceeded es q)
  unfolding Accounts run ReportOnce answered round next
  run-Accounts_from [] q o g = elim (Bool-cases (q.pending == 0)) [
    | inl z ↦ rw z (ended [] q o z)
    | inr z ↦ rw z tt
  ]
  run-Accounts_from (expired ∷ es) q o g = elim (Bool-cases (q.pending == 0)) [
    | inl z ↦ rw z (ended (expired ∷ es) q o z)
    | inr z ↦ rw z (time_over (expired ∷ es) q o)
  ]
  run-Accounts_from (arrived r ∷ es) q o g = elim (Bool-cases (q.pending == 0)) [
    | inl z ↦ rw z (ended (arrived r ∷ es) q o z)
    | inr z ↦ elim (Bool-cases (nothing_else r.fields r.key r.flat_row)) [
      | inl t ↦
          let w : (has r.partition q.waiting ≡ true)
              × ReportOnce (without r.partition q.waiting) es =
            subst
              (λ b.
                if b
                then (has r.partition q.waiting ≡ true)
                  × ReportOnce (without r.partition q.waiting) es
                else ReportOnce q.waiting es)
              t g in
          rw (z, take_final c exceeded r.fields r.key r.flat_row r q t)
            (after_final r.partition r.high_water_mark r.err es (arrived r ∷ es) q w.0 o w.1
              (λ k. ground (arith, k)) (λ k. ground (arith, k, t)) (run-Accounts_from es))
      | inr t ↦
          let w : ReportOnce q.waiting es =
            subst
              (λ b.
                if b
                then (has r.partition q.waiting ≡ true)
                  × ReportOnce (without r.partition q.waiting) es
                else ReportOnce q.waiting es)
              t g in
          rw z (
            Accounts-answered es (arrived r ∷ es)
              (take_result c exceeded r.fields r.key r.flat_row r q >>= λ o'.
                next o' (λ q'. run c exceeded es q'))
              (λ k. ground (arith, k))
              (after_kept es q (take_result c exceeded r.fields r.key r.flat_row r q)
                (take_result-Keeps p c exceeded r.fields r.key r.flat_row r q t) o w
                (run-Accounts_from es)))
    ]
  ]

-- Where each partition sends its last result once, and the query returns without an error, each of
-- its partitions is missing in the statistics, or its last result came without an error.
pub run-Accounts :
    {S E Row : Type 0} (c : Client S E Row) (exceeded : E) (n p : ℕ) (s s' : S)
    (es : List (Event E Row)) (st : QueryStats)
    → p < n
    → ReportOnce (partitions_below n) es
    → run c exceeded es (start n s) ≡ some (done s' st none)
    → (has p st.missing_partitions ≡ true) ⊎ (answered p es ≡ true)
unfolding Accounts IsOpen start
run-Accounts c exceeded n p s s' es st h g r =
    let o : IsOpen c exceeded p (start n s) =
      (has-partitions_below n p h, length-partitions_below n) in
    let a : (has p st.missing_partitions || answered p es) ≡ true =
      subst (Accounts c exceeded p es) r (run-Accounts_from c exceeded p es (start n s) o g) in
    elim (Bool-cases (has p st.missing_partitions)) [
      | inl m ↦ inl m
      | inr m ↦ inr (ground (arith, a, m))
    ]
