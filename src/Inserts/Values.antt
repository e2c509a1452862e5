-- ===== src/Inserts/Values.antt =====
-- insert.go: the inserts of a point have its values, each once.
use mathlib.Core.List.{Perm, append_assoc, perm_append_comm}
use mathlib.Core.List.Perm
use zenodb.Prelude.{
  ℕ, ◌≡◌, refl, arith, true, false, Option, none, some, List, [], ◌∷◌, ◌++◌, map, Option-cases, inl,
  ◌>>=◌, inr,
}
use zenodb.Prelude.Int.{ℤ}
use zenodb.Encoding.Time.{Time}
use zenodb.Following.{Hashing}
use zenodb.Inserts.{
  Table, Done, meets, point_of, do_insert, Val, one, whole, many, wholes, unsupported, Split, named,
  included, split_values, Insert, inserts_of,
}

-- The numbers of a point, under their names, the ints converted.
unfoldable pub all_values : {F : Type 0} → (ℤ → F) → List (List ℕ × Val F) → List (List ℕ × F)
all_values float64 [] = []
all_values float64 ((k, one v) ∷ vals) = (k, v) ∷ all_values float64 vals
all_values float64 ((k, whole v) ∷ vals) = (k, float64 v) ∷ all_values float64 vals
all_values float64 ((k, many vs) ∷ vals) = named k vs ++ all_values float64 vals
all_values float64 ((k, wholes vs) ∷ vals) = named k (map float64 vs) ++ all_values float64 vals
all_values float64 ((k, unsupported) ∷ vals) = all_values float64 vals

-- The values of inserts, in order.
unfoldable pub values_sent : {F O : Type 0} → List (Insert F O) → List (List ℕ × F)
values_sent [] = []
values_sent (i ∷ is) = i.vals ++ values_sent is

module _ {F : Type 0} where
  past :
      (v : List ℕ × F) (main more extra all : List (List ℕ × F))
      → Perm (main ++ extra) all
      → Perm ((v ∷ main) ++ (more ++ extra)) (v ∷ (more ++ all))
  past v main more extra all p = Perm.cons v (
      Perm.trans
        (rw (append_assoc main more extra) at
          (Perm.append_right extra (perm_append_comm main more)))
        (rw (append_assoc more main extra) (Perm.append_left more p)))

  -- What came of the split, if anything did, has these values.
  Holds : Option (Split F) → List (List ℕ × F) → Type 0
  Holds none all = Unit {0}
  Holds (some s) all = Perm (s.main ++ s.extra) all

  -- What comes of a value and the rest, if the rest comes to something.
  included-Holds :
      (k : List ℕ) (v : F) (vs : List F) (rest : Option (Split F)) (all : List (List ℕ × F))
      → Holds rest all
      → Holds (rest >>= λ s. some (included k v vs s)) ((k, v) ∷ (named k vs ++ all))
  unfolding Holds included
  included-Holds k v vs none all h = tt
  included-Holds k v vs (some s) all h = past (k, v) s.main (named k vs) s.extra all h

  split_values-Holds :
      (float64 : ℤ → F) (vals : List (List ℕ × Val F))
      → Holds (split_values float64 vals) (all_values float64 vals)
  unfolding split_values all_values named Holds
  split_values-Holds float64 [] = Perm.refl []
  split_values-Holds float64 ((k, one v) ∷ vals) =
      included-Holds k v [] (split_values float64 vals) (all_values float64 vals)
        (split_values-Holds float64 vals)
  split_values-Holds float64 ((k, whole v) ∷ vals) =
      included-Holds k (float64 v) [] (split_values float64 vals) (all_values float64 vals)
        (split_values-Holds float64 vals)
  split_values-Holds float64 ((k, many []) ∷ vals) = tt
  split_values-Holds float64 ((k, many (v ∷ vs)) ∷ vals) =
      included-Holds k v vs (split_values float64 vals) (all_values float64 vals)
        (split_values-Holds float64 vals)
  split_values-Holds float64 ((k, wholes []) ∷ vals) = tt
  split_values-Holds float64 ((k, wholes (v ∷ vs)) ∷ vals) =
      included-Holds k (float64 v) (map float64 vs) (split_values float64 vals)
        (all_values float64 vals) (split_values-Holds float64 vals)
  split_values-Holds float64 ((k, unsupported) ∷ vals) = split_values-Holds float64 vals

module _ {Name F O : Type 0} (h : Hashing Name) (dims_of : List ℕ → h.Dims) (float64 : ℤ → F)
    (values_of : List ℕ → List (List ℕ × Val F)) where
  values_sent-each :
      (make : List (List ℕ × F) → Insert F O)
      → ((vs : List (List ℕ × F)) → (make vs).vals ≡ vs)
      → (extra : List (List ℕ × F)) → values_sent (map (λ v. make (v ∷ [])) extra) ≡ extra
  unfolding values_sent
  values_sent-each make m [] = refl
  values_sent-each make m (v ∷ extra) = rw (m (v ∷ []), values_sent-each make m extra) refl

  values_sent-inserts_of :
      (make : List (List ℕ × F) → Insert F O)
      → ((vs : List (List ℕ × F)) → (make vs).vals ≡ vs)
      → (main extra : List (List ℕ × F))
      → values_sent
          (inserts_of h dims_of float64 values_of make (record { main = main; extra = extra }))
        ≡ main ++ extra
  unfolding values_sent inserts_of
  values_sent-inserts_of make m [] extra = values_sent-each make m extra
  values_sent-inserts_of make m (v ∷ main) extra =
      rw (m (v ∷ main), values_sent-each make m extra) refl

  -- The inserts that come of a point, if it was let through, have its values.
  Whole : Option (Done F O) → List (List ℕ × F) → Type 0
  Whole none all = Unit {0}
  Whole (some d) all = d.ok ≡ true → Perm (values_sent d.sent) all

  do_insert-Whole :
      (t : Table Name) (ts : Time) (dims vals : List ℕ) (offset : O) (source : ℤ)
      → Whole
          (do_insert h dims_of float64 values_of t ts dims vals offset source)
          (all_values float64 (values_of vals))
  unfolding do_insert Whole Holds point_of
  do_insert-Whole t ts dims vals offset source = elim (Option-cases (meets t.condition dims)) [
    | inl e ↦ rw (do_insert, e, Whole) tt
    | inr (false, e) ↦ rw (do_insert, e, Whole) (λ k. ground (arith, k))
    | inr (true, e) ↦ elim (Option-cases (split_values float64 (values_of vals))) [
      | inl f ↦ rw (do_insert, e, f, Whole) tt
      | inr (s, f) ↦
          rw (do_insert, e, f, Whole)
            (λ k.
              rw
                (values_sent-inserts_of
                  (point_of h dims_of float64 values_of t ts dims offset source) (λ vs. refl) s.main
                  s.extra)
                (rw (f, Holds) at (split_values-Holds float64 (values_of vals))))
    ]
  ]

  -- When `doInsert` lets a point through, the values of the inserts that it sends to the row store are the
  -- numbers of the point, those of its arrays as well, each of them once.
  pub do_insert-values :
      (t : Table Name) (ts : Time) (dims vals : List ℕ) (offset : O) (source : ℤ) (d : Done F O)
      → do_insert h dims_of float64 values_of t ts dims vals offset source ≡ some d
      → d.ok ≡ true
      → Perm (values_sent d.sent) (all_values float64 (values_of vals))
  unfolding Whole
  do_insert-values t ts dims vals offset source d e =
      rw e at (do_insert-Whole t ts dims vals offset source)
