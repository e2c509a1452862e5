-- ===== src/Cluster/Query/Accounts.antt =====
-- cluster_query.go: which partitions `queryCluster` says are missing.
pub mod Keeps
pub mod Missing
use zenodb.Prelude.{
  ℕ, zero, suc, ◌+◌, ◌-◌, ◌<◌, ◌==◌, ap, ◌≡◌, refl, sym, ◌∙◌, Bool, true, false, ◌||◌, ◌&&◌, Option,
  none, some, List, [], ◌∷◌, arith, not, ltb, if◌then◌else◌, ◌>>=◌, ◌⊎◌, inl, inr, Bool-cases,
  Option-cases, length,
}
use mathlib.Core.Path.{subst}
use zenodb.Prelude.Int.{ℤ}
use zenodb.Prelude.Assoc.{int_key, get}
use zenodb.Core.{is_some}
use zenodb.Cluster.Mapper.{Fields, Vals}
use zenodb.Cluster.Query.{
  RemoteResult, QueryStats, Event, arrived, expired, Client, Progress, Outcome, going, done, fail,
  start, announced, mapped, after_row, after_flat_row, reported, take_fields, take_row,
  take_flat_row, take_result, fail_all, round, run, final_stats, next, added, without,
  partitions_below,
}

abbrev pub has : ℕ → List ℕ → Bool
has p [] = false
has p (m ∷ ms) = (p == m) || has p ms

pub has-added : (p a : ℕ) (ms : List ℕ) → has p (added a ms) ≡ ((p == a) || has p ms)
unfolding added
has-added p a [] = refl
has-added p a (m ∷ ms) = ground (arith, has-added p a ms)

pub has-without :
    (p a : ℕ) (ws : List ℕ) → has p ws ≡ true → ((p == a) || has p (without a ws)) ≡ true
unfolding without
has-without p a [] h = ground arith
has-without p a (w ∷ ws) h = ground (arith, has-without p a ws, h)

pub length-without :
    (a : ℕ) (ws : List ℕ) → has a ws ≡ true → length ws ≡ suc (length (without a ws))
unfolding without
length-without a [] h = ground arith
length-without a (w ∷ ws) h = elim (Bool-cases (a == w)) [
  | inl e ↦ rw e refl
  | inr e ↦ rw e (ap suc (length-without a ws (ground (arith, h, e))))
]

pub has-partitions_below : (n p : ℕ) → p < n → has p (partitions_below n) ≡ true
unfolding partitions_below
has-partitions_below zero p h = absurd (omega arith)
has-partitions_below (suc n) p h = elim (Bool-cases (p == n)) [
  | inl e ↦ rw e refl
  | inr e ↦ rw e (has-partitions_below n p (ground (arith, h, e)))
]

pub length-partitions_below : (n : ℕ) → n ≡ length (partitions_below n)
unfolding partitions_below
length-partitions_below zero = refl
length-partitions_below (suc n) = ap suc (length-partitions_below n)

-- A result that is the last of its partition: everything else is nil in it.
module _ {Row : Type 0} where
  unfoldable pub nothing_else : Option Fields → Option (List ℕ) → Option Row → Bool
  nothing_else (some fields) key row = false
  nothing_else none (some key) row = false
  nothing_else none none (some row) = false
  nothing_else none none none = true

module _ {E Row : Type 0} where
  -- A partition reports without an error.
  unfoldable pub answered : ℕ → List (Event E Row) → Bool
  unfolding nothing_else
  answered p [] = false
  answered p (expired ∷ es) = answered p es
  answered p (arrived r ∷ es) =
      (nothing_else r.fields r.key r.flat_row && not (is_some r.err) && (p == r.partition))
      || answered p es

  -- Each last result is of a partition that has not sent one before.
  unfoldable pub ReportOnce : List ℕ → List (Event E Row) → Type 0
  unfolding nothing_else
  ReportOnce ws [] = Unit {0}
  ReportOnce ws (expired ∷ es) = Unit {0}
  ReportOnce ws (arrived r ∷ es) =
      if nothing_else r.fields r.key r.flat_row
      then (has r.partition ws ≡ true) × ReportOnce (without r.partition ws) es
      else ReportOnce ws es

-- A last result goes to the end of the round.
module _ {S E Row : Type 0} (c : Client S E Row) (exceeded : E) where
  pub take_final :
      (fields : Option Fields) (key : Option (List ℕ)) (row : Option Row) (r : RemoteResult E Row)
      (q : Progress S E)
      → nothing_else fields key row ≡ true
      → take_result c exceeded fields key row r q
        ≡ some (going (reported r.partition r.high_water_mark r.err q))
  unfolding nothing_else take_result
  take_final (some f) key row r q h = ground arith
  take_final none (some key) row r q h = ground arith
  take_final none none (some row) r q h = ground arith
  take_final none none none r q h = refl
