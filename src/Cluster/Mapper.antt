-- ===== src/Cluster/Mapper.antt =====
-- cluster_query.go: `partitionRowMapper`, which brings the columns of a partition's rows to the places
-- that they have among the fields that the query announced, those of the partition that came first.
use zenodb.Prelude.{
  ℕ, zero, suc, ◌+◌, ◌≡◌, refl, ap, ◌∙◌, Bool, true, false, ◌||◌, Option, none, some, List, [], ◌∷◌,
  arith, if◌then◌else◌, length, drop, get_elem?, list_eq, list_eq_sound, ◌>>=◌, ◌⊎◌, inl, inr,
  Bool-cases, Yields,
}
use zenodb.Sequence.{Sequence}
use zenodb.Rowstore.Fields.{out_index, same_fields}

-- A field is the text that it prints as, by which `Field.Equals` compares.
abbrev pub Fields : Type 0
Fields = List (List ℕ)

abbrev pub Vals : Type 0
Vals = List Sequence

-- `idxs`: where the partition has each of the fields. `none` is -1.
pub idxs_of : Fields → Fields → List (Option ℕ)
unfolding out_index
idxs_of [] partition_fields = []
idxs_of (f ∷ canonical) partition_fields =
    out_index f 0 partition_fields ∷ idxs_of canonical partition_fields

-- A value of `scratch`, which is nil where there is no column.
pub scratch_at : Vals → Option ℕ → Sequence
scratch_at vals none = []
scratch_at vals (some i) = elim (get_elem? vals i) [ none ↦ [] | some v ↦ v ]

pub scratch_of : List (Option ℕ) → Vals → Vals
unfolding scratch_at
scratch_of [] vals = []
scratch_of (i ∷ idxs) vals = scratch_at vals i ∷ scratch_of idxs vals

-- The loop that writes `scratch` into the columns of the row. Behind the end of `scratch` Go panics.
pub written_over : Vals → Vals → Option Vals
written_over [] scratch = some []
written_over (v ∷ vals) [] = none
written_over (v ∷ vals) (s ∷ scratch) = written_over vals scratch >>= λ rest. some (s ∷ rest)

-- `partitionRowMapper`.
pub partition_row_mapper : Fields → Fields → Vals → Option Vals
unfolding idxs_of scratch_of written_over same_fields
partition_row_mapper canonical partition_fields vals =
    if same_fields canonical partition_fields
    then some vals
    else written_over vals (scratch_of (idxs_of canonical partition_fields) vals)

-- The column of a row that a field has, the first of that field, or nil.
pub value_of : List ℕ → Fields → Vals → Sequence
value_of f [] vals = []
value_of f (g ∷ fields) [] = []
value_of f (g ∷ fields) (v ∷ vals) = if list_eq f g then v else value_of f fields vals

pub has_field : List ℕ → Fields → Bool
has_field f [] = false
has_field f (g ∷ fields) = list_eq f g || has_field f fields

get_elem?-drop :
    (k : ℕ) (vals : Vals)
    → ((get_elem? vals k ≡ none) × (drop k vals ≡ []) × (drop (suc k) vals ≡ []))
      ⊎ ((v : Sequence) × (get_elem? vals k ≡ some v) × (drop k vals ≡ v ∷ drop (suc k) vals))
get_elem?-drop zero [] = inl (refl, refl, refl)
get_elem?-drop (suc k) [] = inl (refl, refl, refl)
get_elem?-drop zero (v ∷ vals) = inr (v, refl, refl)
get_elem?-drop (suc k) (v ∷ vals) = get_elem?-drop k vals

value_of_nil : (f : List ℕ) (fields : Fields) → value_of f fields [] ≡ []
unfolding value_of
value_of_nil f [] = refl
value_of_nil f (g ∷ fields) = refl

scratch_at-out_index :
    (f : List ℕ) (k : ℕ) (fields : Fields) (vals : Vals)
    → scratch_at vals (out_index f k fields) ≡ value_of f fields (drop k vals)
unfolding scratch_at out_index value_of
scratch_at-out_index f k [] vals = refl
scratch_at-out_index f k (g ∷ fields) vals =
    let n : 1 + k ≡ suc k = omega arith in
    elim (get_elem?-drop k vals) [
      | inl (e, d, d') ↦ elim (Bool-cases (list_eq f g)) [
        | inl h ↦ rw (h, scratch_at, e, value_of, d) refl
        | inr h ↦
            rw (h, value_of, d, n)
              (scratch_at-out_index f (suc k) fields vals ∙ rw d' (value_of_nil f fields))
      ]
      | inr (v, e, d) ↦ elim (Bool-cases (list_eq f g)) [
        | inl h ↦ rw (h, scratch_at, e, value_of, d, h) refl
        | inr h ↦ rw (h, value_of, d, h, n) (scratch_at-out_index f (suc k) fields vals)
      ]
    ]

value_of-scratch_of :
    (f : List ℕ) (canonical fields : Fields) (vals : Vals)
    → has_field f canonical ≡ true
    → value_of f canonical (scratch_of (idxs_of canonical fields) vals) ≡ value_of f fields vals
unfolding has_field scratch_of idxs_of value_of
value_of-scratch_of f [] fields vals h = ground arith
value_of-scratch_of f (g ∷ canonical) fields vals h = elim (Bool-cases (list_eq f g)) [
  | inl e ↦ rw e (rw (list_eq_sound f g e) (scratch_at-out_index g 0 fields vals))
  | inr e ↦ rw e (value_of-scratch_of f canonical fields vals (ground (arith, h, e)))
]

length-scratch_of :
    (canonical fields : Fields) (vals : Vals)
    → length (scratch_of (idxs_of canonical fields) vals) ≡ length canonical
unfolding scratch_of idxs_of
length-scratch_of [] fields vals = refl
length-scratch_of (f ∷ canonical) fields vals = ap suc (length-scratch_of canonical fields vals)

pub written_over_lem :
    (vals scratch : Vals) → length vals ≡ length scratch → written_over vals scratch ≡ some scratch
unfolding written_over
written_over_lem [] [] h = refl
written_over_lem [] (s ∷ scratch) h = absurd (omega arith)
written_over_lem (v ∷ vals) [] h = absurd (omega arith)
written_over_lem (v ∷ vals) (s ∷ scratch) h = rw (written_over_lem vals scratch (omega arith)) refl

same_fields_sound : (fs gs : Fields) → same_fields fs gs ≡ true → fs ≡ gs
unfolding same_fields
same_fields_sound [] [] h = refl
same_fields_sound [] (g ∷ gs) h = ground arith
same_fields_sound (f ∷ fs) [] h = ground arith
same_fields_sound (f ∷ fs) (g ∷ gs) h =
    rw (list_eq_sound f g (ground (arith, h)), same_fields_sound fs gs (ground (arith, h))) refl

-- A row with as many columns as the query announced fields comes through, and each of the announced
-- fields has the column in it that it had in the row of the partition, or nil where the partition
-- does not have the field, in whatever order the partition has its fields.
pub value_of-partition_row_mapper :
    (canonical fields : Fields) (vals : Vals)
    → length vals ≡ length canonical
    → Yields (partition_row_mapper canonical fields vals) (λ r.
      (length r ≡ length canonical)
      × ((f : List ℕ)
          → has_field f canonical ≡ true
          → value_of f canonical r ≡ value_of f fields vals))
unfolding partition_row_mapper
value_of-partition_row_mapper canonical fields vals h =
    elim (Bool-cases (same_fields canonical fields)) [
      | inl e ↦ rw e (h, λ f k. ap (λ c. value_of f c vals) (same_fields_sound canonical fields e))
      | inr e ↦
          let l = length-scratch_of canonical fields vals in
          rw
            (
              e,
              written_over_lem vals (scratch_of (idxs_of canonical fields) vals)
                  (omega (arith, h, l)),
            )
            (l, λ f k. value_of-scratch_of f canonical fields vals k)
    ]
