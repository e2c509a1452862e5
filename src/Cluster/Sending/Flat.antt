-- ===== src/Cluster/Sending/Flat.antt =====
-- cluster_query.go: the goroutines of a query for flat rows and the loop that takes what they send.
use zenodb.Prelude.{
  ℕ, zero, suc, ◌+◌, ◌≡◌, refl, ◌∙◌, Bool, true, false, ◌||◌, Option, none, some, List, [], ◌∷◌,
  ◌++◌, arith, if◌then◌else◌, inl, inr, Bool-cases, length, map,
}
use zenodb.Prelude.Int.{ℤ}
use zenodb.Core.{is_some}
use zenodb.Cluster.Mapper.{Fields, Vals}
use zenodb.Cluster.Query.{RemoteResult, QueryStats, arrived, Client, done, start, run}
use zenodb.Cluster.Query.Accounts.{nothing_else}
use zenodb.Cluster.Query.Ends.{finals, Fits, FitsResult, known_after}
use zenodb.Cluster.Query.Ends.Returns.{run-done}
use zenodb.Cluster.Sending.{
  Call, on_fields, on_row, on_flat_row, Attempt, sent_by, final_result, mark_of, after_attempt,
  sent,
}

-- An order in which two senders get their messages into a channel.
pub data Shuffle {A : Type 0} : List A → List A → List A → Type 0 where
  both_empty : Shuffle [] [] []
  from_left : {x : A} {xs ys zs : List A} → Shuffle xs ys zs → Shuffle (x ∷ xs) ys (x ∷ zs)
  from_right : {y : A} {xs ys zs : List A} → Shuffle xs ys zs → Shuffle xs (y ∷ ys) (y ∷ zs)

pub IsFlatResult : ℕ → Option Fields → Option (List ℕ) → Type 0
IsFlatResult w fields (some key) = ⊥
IsFlatResult w none none = Unit {0}
IsFlatResult w (some fields) none = length fields ≡ w

fits_flat :
    (w : ℕ) (known : List ℕ) (fields : Option Fields) (key : Option (List ℕ)) (p : ℕ) (vals : Vals)
    → IsFlatResult w fields key
    → FitsResult w known fields key p vals
unfolding IsFlatResult FitsResult
fits_flat w known fields (some key) p vals h = absurd h
fits_flat w known none none p vals h = tt
fits_flat w known (some fields) none p vals h = h

module _ {E Row : Type 0} where
  -- A handler that is asked for flat rows calls back for those, and for w fields.
  unfoldable pub AreFlatCalls : ℕ → List (Call E Row) → Type 0
  AreFlatCalls w [] = Unit {0}
  AreFlatCalls w (on_fields fields ∷ calls) = (length fields ≡ w) × AreFlatCalls w calls
  AreFlatCalls w (on_row final_err stopped key vals ∷ calls) = ⊥
  AreFlatCalls w (on_flat_row final_err stopped row ∷ calls) = AreFlatCalls w calls

  unfoldable pub AreFlatAttempts : ℕ → List (Attempt E Row) → Type 0
  unfolding AreFlatCalls
  AreFlatAttempts w [] = Unit {0}
  AreFlatAttempts w (a ∷ attempts) = AreFlatCalls w a.calls × AreFlatAttempts w attempts

  pub AreFlat : ℕ → List (RemoteResult E Row) → Type 0
  unfolding IsFlatResult
  AreFlat w [] = Unit {0}
  AreFlat w (r ∷ rs) = IsFlatResult w r.fields r.key × AreFlat w rs

  -- How many last results there are.
  pub last_results : List (RemoteResult E Row) → ℕ
  unfolding nothing_else
  last_results [] = 0
  last_results (r ∷ rs) =
      let rest = last_results rs in
      if nothing_else r.fields r.key r.flat_row then suc rest else rest

  AreFlat-append :
      (w : ℕ) (rs ts : List (RemoteResult E Row))
      → AreFlat w rs
      → AreFlat w ts
      → AreFlat w (rs ++ ts)
  unfolding AreFlat
  AreFlat-append w [] ts h k = k
  AreFlat-append w (r ∷ rs) ts (g, h) k = (g, AreFlat-append w rs ts h k)

  sent_by_flat :
      (w p : ℕ) (calls : List (Call E Row)) (ts : List (RemoteResult E Row))
      → AreFlatCalls w calls
      → AreFlat w ts
      → AreFlat w (sent_by p calls ++ ts) × (last_results (sent_by p calls ++ ts) ≡ last_results ts)
  unfolding AreFlat AreFlatCalls IsFlatResult sent_by last_results nothing_else
  sent_by_flat w p [] ts h k = (k, refl)
  sent_by_flat w p (on_fields fields ∷ calls) ts (g, h) k =
      let (a, b) = sent_by_flat w p calls ts h k in ((g, a), b)
  sent_by_flat w p (on_row final_err stopped key vals ∷ calls) ts h k = absurd h
  sent_by_flat w p (on_flat_row final_err stopped row ∷ calls) ts h k =
      let (a, b) = sent_by_flat w p calls ts h k in
      elim (Bool-cases (is_some final_err || stopped)) [
        | inl e ↦ rw e (a, b)
        | inr e ↦ rw e ((tt, a), b)
      ]

  after_attempt_flat :
      (w p : ℕ) (mark : ℤ) (err : Option (E × Bool)) (rs : List (RemoteResult E Row))
      → AreFlat w rs × (last_results rs ≡ 1)
      → AreFlat w (after_attempt p mark err rs) × (last_results (after_attempt p mark err rs) ≡ 1)
  unfolding AreFlat IsFlatResult last_results nothing_else after_attempt final_result
  after_attempt_flat w p mark none rs h = ((tt, tt), refl)
  after_attempt_flat w p mark (some (e, true)) rs h = h
  after_attempt_flat w p mark (some (e, false)) rs h = ((tt, tt), refl)

  -- A goroutine sends one last result.
  sent_flat :
      (w p : ℕ) (missing_handler : E) (attempts : List (Attempt E Row))
      → AreFlatAttempts w attempts
      → AreFlat w (sent p missing_handler attempts)
        × (last_results (sent p missing_handler attempts) ≡ 1)
  unfolding AreFlat AreFlatAttempts IsFlatResult sent last_results nothing_else final_result
  sent_flat w p missing_handler [] h = ((tt, tt), refl)
  sent_flat w p missing_handler (a ∷ attempts) (g, h) =
      let rest =
        after_attempt p (mark_of a.highest_high_water_mark) a.err
          (sent p missing_handler attempts) in
      let (k, n) =
        after_attempt_flat w p (mark_of a.highest_high_water_mark) a.err
          (sent p missing_handler attempts) (sent_flat w p missing_handler attempts h) in
      let (l, m) = sent_by_flat w p a.calls rest g k in (l, m ∙ n)

  Shuffle-AreFlat :
      (w : ℕ) {rs ts zs : List (RemoteResult E Row)}
      → Shuffle rs ts zs
      → AreFlat w rs
      → AreFlat w ts
      → AreFlat w zs × (last_results zs ≡ last_results rs + last_results ts)
  unfolding AreFlat last_results
  Shuffle-AreFlat w both_empty h k = (tt, refl)
  Shuffle-AreFlat w (from_left {x} s) (g, h) k =
      let (a, b) = Shuffle-AreFlat w s h k in ((g, a), ground (arith, b))
  Shuffle-AreFlat w (from_right {y} s) h (g, k) =
      let (a, b) = Shuffle-AreFlat w s h k in ((g, a), ground (arith, b))

  -- An order in which the goroutines of the partitions below n get their results into the channel.
  unfoldable pub Sends : E → (ℕ → List (Attempt E Row)) → ℕ → List (RemoteResult E Row) → Type 0
  Sends missing_handler attempts zero zs = zs ≡ []
  Sends missing_handler attempts (suc n) zs =
      (rest : List (RemoteResult E Row)) × Sends missing_handler attempts n rest
      × Shuffle (sent n missing_handler (attempts n)) rest zs

  sends_flat :
      (w : ℕ) (missing_handler : E) (attempts : ℕ → List (Attempt E Row)) (n : ℕ)
      (zs : List (RemoteResult E Row))
      → ((p : ℕ) → AreFlatAttempts w (attempts p))
      → Sends missing_handler attempts n zs
      → AreFlat w zs × (last_results zs ≡ n)
  unfolding Sends AreFlat last_results
  sends_flat w missing_handler attempts zero [] h s = (tt, refl)
  sends_flat w missing_handler attempts zero (z ∷ zs) h s = ground (arith, s)
  sends_flat w missing_handler attempts (suc n) zs h (rest, s, sh) =
      let (a, b) = sends_flat w missing_handler attempts n rest h s in
      let (k, l) = sent_flat w n missing_handler (attempts n) (h n) in
      let (x, y) = Shuffle-AreFlat w sh k a in (x, omega (arith, y, l, b))

  flat-Fits :
      (w : ℕ) (rs : List (RemoteResult E Row)) (known : List ℕ)
      → AreFlat w rs
      → Fits w known (map arrived rs) × (finals (map arrived rs) ≡ last_results rs)
  unfolding AreFlat Fits finals last_results
  flat-Fits w [] known h = (tt, refl)
  flat-Fits w (r ∷ rs) known (g, h) =
      let (a, b) = flat-Fits w rs (known_after r.fields r.partition known) h in
      ((fits_flat w known r.fields r.key r.partition r.vals g, a), ground (arith, b))

-- A query for flat rows returns: where the handlers of all partitions call back for flat rows and with
-- the same number of fields, then in whatever order the goroutines of the partitions, which try one
-- handler after the other, get their results into the channel, when these have all come the query has
-- returned, and nothing has panicked.
pub Sends-done :
    {S E Row : Type 0} (c : Client S E Row) (exceeded missing_handler : E) (w n : ℕ) (s : S)
    (attempts : ℕ → List (Attempt E Row)) (zs : List (RemoteResult E Row))
    → ((p : ℕ) → AreFlatAttempts w (attempts p))
    → Sends missing_handler attempts n zs
    → (s' : S) × (st : QueryStats) × (err : Option E) × (run c exceeded (map arrived zs) (start n s)
        ≡ some (done s' st err))
Sends-done c exceeded missing_handler w n s attempts zs h k =
    let (a, b) = sends_flat w missing_handler attempts n zs h k in
    let (f, l) = flat-Fits w zs [] a in
    run-done c exceeded w n s (map arrived zs) f (omega (arith, b, l))
