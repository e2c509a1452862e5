-- ===== src/Following/Earliest.antt =====
-- cluster_follow.go: where the log of a stream is read from when followers join it.
use zenodb.Prelude.{
  ℕ, ◌≡◌, refl, ap, sym, ◌∙◌, ◌⊎◌, false, Option, none, some, List, [], ◌∷◌, ◌++◌, arith,
  if◌then◌else◌, Bool-cases, inl, inr,
}
use mathlib.Core.Path.{subst}
use zenodb.Prelude.Assoc.{Assoc}
use zenodb.Offsets.{WalOffset, or_nil, or_nil-some}
use zenodb.Following.Dispatch.{not_behind}
use zenodb.Following.{Specs, TableSpec, Partitions}

module _ (w : WalOffset) where
  open w use {Offset, nil_offset, after}

  -- The body of the loop, on `earliestOffset` with `hasOffset`.
  pub earlier : Option Offset → Offset → Option Offset
  earlier none o = some o
  earlier (some e) o = some (if after e o then o else e)

  -- The offsets of all specs.
  offsets_of_specs : Specs w → List Offset
  offsets_of_specs [] = []
  offsets_of_specs ((i, spec) ∷ specs) = spec.offset ∷ offsets_of_specs specs

  offsets_of_maps : Assoc ℕ (Specs w) → List Offset
  offsets_of_maps [] = []
  offsets_of_maps ((p, specs) ∷ maps) = offsets_of_specs specs ++ offsets_of_maps maps

  -- The earliest of a list.
  lowest : Option Offset → List Offset → Option Offset
  unfolding earlier
  lowest e [] = e
  lowest e (o ∷ os) = lowest (earlier e o) os

  lowest-append :
      (e : Option Offset) (os ps : List Offset) → lowest e (os ++ ps) ≡ lowest (lowest e os) ps
  unfolding lowest
  lowest-append e [] ps = refl
  lowest-append e (o ∷ os) ps = lowest-append (earlier e o) os ps

  -- An offset that is after none of a list, and is one of it.
  pub IsAfterNone : Offset → List Offset → Type 0
  IsAfterNone e [] = Unit {0}
  IsAfterNone e (o ∷ os) = (after e o ≡ false) × IsAfterNone e os

  pub IsOneOf : Offset → List Offset → Type 0
  IsOneOf e [] = ⊥
  IsOneOf e (o ∷ os) = (e ≡ o) ⊎ IsOneOf e os

  abbrev Found : Offset → List Offset → Type 0
  Found e os =
      (r : Offset) × (lowest (some e) os ≡ some r) × IsAfterNone r (e ∷ os) × IsOneOf r (e ∷ os)

  one_more :
      (e o : Offset) (os : List Offset) (r : Offset) → IsOneOf r (e ∷ os) → IsOneOf r (e ∷ o ∷ os)
  unfolding IsOneOf
  one_more e o os r (inl h) = inl h
  one_more e o os r (inr h) = inr (inr h)

  lowest_lem : (e : Offset) (os : List Offset) → Found e os
  unfolding lowest earlier IsAfterNone IsOneOf
  lowest_lem e [] = (e, refl, (w.after_irrefl e, tt), inl refl)
  lowest_lem e (o ∷ os) = elim (Bool-cases (after e o)) [
    | inl h ↦
        let (r, l, (a, b), i) = lowest_lem o os in
        let k : after r e ≡ false = elim (Bool-cases (after r e)) [
          | inl c ↦ absurd (ground (arith, w.after_trans r e o c h, a))
          | inr c ↦ c
        ] in
        rw h (r, l, (k, (a, b)), inr i)
    | inr h ↦
        let (r, l, (a, b), i) = lowest_lem e os in
        rw h (r, l, (a, (not_behind w e r o a h, b)), one_more e o os r i)
  ]

  of_list :
      (os : List Offset)
      → IsAfterNone (or_nil w (lowest none os)) os
        × ((os ≡ []) ⊎ IsOneOf (or_nil w (lowest none os)) os)
  unfolding lowest earlier IsAfterNone IsOneOf
  of_list [] = (tt, inl refl)
  of_list (o ∷ os) =
      let (r, l, a, i) = lowest_lem o os in
      let q : or_nil w (lowest none (o ∷ os)) ≡ r = ap (or_nil w) l ∙ or_nil-some w r in
      (
        subst (λ x. IsAfterNone x (o ∷ os)) (sym q) a,
        inr (subst (λ x. IsOneOf x (o ∷ os)) (sym q) i),
      )

  -- The loops over the specs, and over the maps of a table.
  pub earliest_specs : Option Offset → Specs w → Option Offset
  unfolding earlier
  earliest_specs e [] = e
  earliest_specs e ((i, spec) ∷ specs) = earliest_specs (earlier e spec.offset) specs

  pub earliest_maps : Option Offset → Assoc ℕ (Specs w) → Option Offset
  unfolding earliest_specs
  earliest_maps e [] = e
  earliest_maps e ((p, specs) ∷ maps) = earliest_maps (earliest_specs e specs) maps

  earliest_specs_lem :
      (e : Option Offset) (specs : Specs w)
      → earliest_specs e specs ≡ lowest e (offsets_of_specs specs)
  unfolding earliest_specs lowest offsets_of_specs
  earliest_specs_lem e [] = refl
  earliest_specs_lem e ((i, spec) ∷ specs) = earliest_specs_lem (earlier e spec.offset) specs

  earliest_maps_lem :
      (e : Option Offset) (maps : Assoc ℕ (Specs w))
      → earliest_maps e maps ≡ lowest e (offsets_of_maps maps)
  unfolding earliest_maps lowest offsets_of_maps
  earliest_maps_lem e [] = refl
  earliest_maps_lem e ((p, specs) ∷ maps) =
      earliest_maps_lem (earliest_specs e specs) maps
      ∙ ap (λ x. lowest x (offsets_of_maps maps)) (earliest_specs_lem e specs)
      ∙ sym (lowest-append e (offsets_of_specs specs) (offsets_of_maps maps))

  module _ {Name Where : Type 0} where
    offsets_of_tables : Assoc Name (TableSpec w Name Where) → List Offset
    unfolding offsets_of_maps
    offsets_of_tables [] = []
    offsets_of_tables ((n, table) ∷ tables) =
        offsets_of_maps table.followers_by_partition ++ offsets_of_tables tables

    pub offsets_of : Partitions w Name Where → List Offset
    unfolding offsets_of_tables
    offsets_of [] = []
    offsets_of ((n, ps) ∷ rest) = offsets_of_tables ps.tables ++ offsets_of rest

    -- The loops over the tables and the partitions of a stream.
    pub earliest_tables : Option Offset → Assoc Name (TableSpec w Name Where) → Option Offset
    unfolding earliest_maps
    earliest_tables e [] = e
    earliest_tables e ((n, table) ∷ tables) =
        earliest_tables (earliest_maps e table.followers_by_partition) tables

    pub earliest_partitions : Option Offset → Partitions w Name Where → Option Offset
    unfolding earliest_tables
    earliest_partitions e [] = e
    earliest_partitions e ((n, ps) ∷ rest) = earliest_partitions (earliest_tables e ps.tables) rest

    -- `earliestOffset`, which is nil where there is no spec.
    pub earliest_offset : Partitions w Name Where → Offset
    unfolding earliest_partitions
    earliest_offset ps = or_nil w (earliest_partitions none ps)

    earliest_tables_lem :
        (e : Option Offset) (tables : Assoc Name (TableSpec w Name Where))
        → earliest_tables e tables ≡ lowest e (offsets_of_tables tables)
    unfolding earliest_tables lowest offsets_of_tables
    earliest_tables_lem e [] = refl
    earliest_tables_lem e ((n, table) ∷ tables) =
        earliest_tables_lem (earliest_maps e table.followers_by_partition) tables
        ∙ ap (λ x. lowest x (offsets_of_tables tables))
            (earliest_maps_lem e table.followers_by_partition)
        ∙ sym (
            lowest-append e (offsets_of_maps table.followers_by_partition)
              (offsets_of_tables tables))

    earliest_partitions_lem :
        (e : Option Offset) (ps : Partitions w Name Where)
        → earliest_partitions e ps ≡ lowest e (offsets_of ps)
    unfolding earliest_partitions lowest offsets_of
    earliest_partitions_lem e [] = refl
    earliest_partitions_lem e ((n, ps) ∷ rest) =
        earliest_partitions_lem (earliest_tables e ps.tables) rest
        ∙ ap (λ x. lowest x (offsets_of rest)) (earliest_tables_lem e ps.tables)
        ∙ sym (lowest-append e (offsets_of_tables ps.tables) (offsets_of rest))

    -- The earliest offset of a stream is after the offset of none of its specs, and is that of one
    -- of them if there are any.
    pub earliest_offset_lem :
        (ps : Partitions w Name Where)
        → IsAfterNone (earliest_offset ps) (offsets_of ps)
          × ((offsets_of ps ≡ []) ⊎ IsOneOf (earliest_offset ps) (offsets_of ps))
    unfolding earliest_offset
    earliest_offset_lem ps = rw (earliest_partitions_lem none ps) (of_list (offsets_of ps))
