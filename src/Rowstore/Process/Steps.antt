-- ===== src/Rowstore/Process/Steps.antt =====
-- row_store.go: what holds of a row store in every round of `processInserts`.
use zenodb.Prelude.{
  ℕ, ◌+◌, ◌%◌, ◌==◌, ◌≡◌, ◌⊎◌, refl, ap, sym, ◌∙◌, Bool, true, false, ◌&&◌, Option, none, some,
  List, [], ◌∷◌, if◌then◌else◌, ◌>>=◌, inl, inr, Option-cases, Bool-cases,
}
use zenodb.Prelude.Int.{ℤ, pos}
use zenodb.Bytetree.{Tree, empty, update}
use zenodb.Bytetree.Radix.{IsRadix, update-IsRadix}
use zenodb.Bytetree.Lookup.{at_path}
use zenodb.Encoding.Until.{Quotients}
use zenodb.Expr.{Outside, Expr}
use zenodb.Offsets.{WalOffset}
use zenodb.Sequence.{Sequence}
use zenodb.Rowstore.Header.{source_key}
use zenodb.Rowstore.Store.{Field, Memstore, texts_of, exprs_of}
use zenodb.Rowstore.Flush.{Flushed, flushed, flush_failed, flush}
use zenodb.Rowstore.Process.{
  RowStore, Insert, Clock, Event, inserted, due, forced, fields_changed, new_memstore, or_empty,
  update_columns, columns_or_blank, update_tree, insert, do_process_flush, attempts, process_flush,
  Clocks, flush_memory, update_fields, step, run,
}

-- What comes of a step, if anything does.
abbrev pub Stays : {A : Type 0} → Option A → (A → Type 0) → Type 0
Stays none P = Unit {0}
Stays (some a) P = P a

Stays-bind :
    {A B : Type 0} (m : Option A) (f : A → Option B) (P : A → Type 0) (Q : B → Type 0)
    → Stays m P
    → ((a : A) → P a → Stays (f a) Q)
    → Stays (m >>= f) Q
Stays-bind none f P Q h k = tt
Stays-bind (some a) f P Q h k = k a h

Stays-Unit : {A : Type 0} (m : Option A) → Stays m (λ a. Unit {0})
Stays-Unit none = tt
Stays-Unit (some a) = tt

pub Flushed-cases :
    (m : Flushed)
    → ((bytes : List ℕ) × (high : ℤ) × (count : ℕ) × (m ≡ flushed bytes high count))
      ⊎ (m ≡ flush_failed)
Flushed-cases (flushed bytes high count) = inl (bytes, high, count, refl)
Flushed-cases flush_failed = inr refl

-- The memstore has the fields of the store, and its tree is a radix tree.
abbrev pub IsStored : {x : Outside} → RowStore x → Type 0
IsStored rs = (rs.memory.fields ≡ texts_of rs.fields) × IsRadix rs.memory.tree.root

module _ (x : Outside) (q : Quotients) (resolution : ℕ)
    (added : List Sequence → List Sequence → ℤ) where
  update_tree-IsRadix :
      (es : List (Expr x)) (i : Insert x) (key : List ℕ) (tree : Tree (List Sequence))
      → IsRadix tree.root
      → Stays (update_tree x q resolution added es i key tree) (λ t. IsRadix t.root)
  unfolding update_tree
  update_tree-IsRadix es i key tree h =
      let old = columns_or_blank x q resolution added es (at_path tree.root key) in
      Stays-bind (update_columns x q resolution added i es old)
        (λ cs. some (update (λ d. (cs, added old cs)) key tree).0) (λ cs. Unit {0})
        (λ t. IsRadix t.root) (Stays-Unit (update_columns x q resolution added i es old))
        (λ cs u. (update-IsRadix (λ d. (cs, added old cs)) key tree).1 h)

  insert-keeps :
      (es : List (Expr x)) (i : Insert x) (ms : Memstore)
      → IsRadix ms.tree.root
      → Stays
          (insert x q resolution added es i ms)
          (λ ms'. (ms'.fields ≡ ms.fields) × IsRadix ms'.tree.root)
  unfolding insert
  insert-keeps es i ms h = elim (Option-cases ms.offsets) [
    | inl e ↦ rw (insert, e) tt
    | inr (offsets, e) ↦ elim (Option-cases i.key) [
      | inl f ↦ rw (insert, e, f) (refl, h)
      | inr (key, f) ↦
          rw (insert, e, f)
            (Stays-bind (update_tree x q resolution added es i key ms.tree) _ (λ t. IsRadix t.root)
              _ (update_tree-IsRadix es i key ms.tree h) (λ t r. (refl, r)))
    ]
  ]

empty-IsRadix : IsRadix (empty {D = List Sequence}).root
empty-IsRadix = (update-IsRadix (λ d. ([], pos 0)) [] empty).0

-- What holds after `flush`: without a new memstore, the old one keeps its fields and its tree, also when the
-- store's fields are new.
AfterFlush : {x : Outside} → RowStore x → RowStore x × Bool → Type 0
AfterFlush rs (rs', true) = IsStored rs'
AfterFlush rs (rs', false) =
    (rs'.memory.fields ≡ rs.memory.fields) × (rs'.fields ≡ rs.fields) × IsRadix rs'.memory.tree.root

module _ (w : WalOffset) (offset_of : List ℕ → w.Offset) (offset_size : ℕ) (x : Outside)
    (q : Quotients) (resolution : ℕ) (blank : List ℕ) (sort : List (List ℕ) → List (List ℕ)) where
  do_process_flush-IsStored :
      (clock : Clock) (allow_sort : Bool) (rs : RowStore x)
      → Stays
          (do_process_flush w offset_of offset_size x q resolution blank sort clock allow_sort rs)
          IsStored
  unfolding do_process_flush new_memstore
  do_process_flush-IsStored clock allow_sort rs =
      elim (Flushed-cases (
        flush w offset_of offset_size x q resolution blank sort clock.before clock.ctx rs.version
          rs.file_fields none rs.fields (or_empty rs.memory.offsets) rs.memory
          (allow_sort && clock.turn) (rs.flush_count % 10 == 9) rs.file rs.offset_file)) [
            | inl (bytes, high, count, e) ↦ rw (do_process_flush, e) (refl, empty-IsRadix)
            | inr e ↦ rw (do_process_flush, e) tt
          ]

  attempts-IsStored :
      (clocks : List Clock) (allow_sort : Bool) (rs : RowStore x)
      → Stays
          (attempts w offset_of offset_size x q resolution blank sort clocks allow_sort rs)
          IsStored
  unfolding attempts
  attempts-IsStored [] allow_sort rs = tt
  attempts-IsStored (clock ∷ clocks) allow_sort rs =
      elim (Option-cases
        (do_process_flush w offset_of offset_size x q resolution blank sort clock allow_sort rs)) [
          | inl e ↦
              rw (attempts, e)
                (attempts-IsStored clocks allow_sort
                  (record rs { flush_count = rs.flush_count + 1 }))
          | inr (rs', e) ↦
              rw (attempts, e) (rw e at (do_process_flush-IsStored clock allow_sort rs))
        ]

  process_flush-IsStored :
      (clocks : Clocks) (allow_sort : Bool) (rs : RowStore x)
      → Stays
          (process_flush w offset_of offset_size x q resolution blank sort clocks allow_sort rs)
          IsStored
  unfolding process_flush
  process_flush-IsStored clocks =
      attempts-IsStored (clocks.first ∷ clocks.second ∷ clocks.third ∷ [])

  flush_memory-AfterFlush :
      (clocks : Clocks) (allow_sort : Bool) (rs : RowStore x)
      → IsRadix rs.memory.tree.root
      → Stays
          (flush_memory w offset_of offset_size x q resolution blank sort clocks allow_sort rs)
          (AfterFlush rs)
  unfolding flush_memory AfterFlush
  flush_memory-AfterFlush clocks allow_sort rs h = elim (Bool-cases (rs.memory.tree.size == 0)) [
    | inl e ↦ elim (Bool-cases rs.memory.offset_changed) [
      | inl f ↦ rw (flush_memory, e, f) (refl, refl, h)
      | inr f ↦ rw (flush_memory, e, f) (refl, refl, h)
    ]
    | inr e ↦
        rw (flush_memory, e)
          (Stays-bind
            (process_flush w offset_of offset_size x q resolution blank sort clocks allow_sort rs) _
            IsStored _ (process_flush-IsStored clocks allow_sort rs) (λ rs' s. s))
  ]

  IsStored-of :
      (rs : RowStore x) (r : RowStore x × Bool) → IsStored rs → AfterFlush rs r → IsStored r.0
  unfolding AfterFlush
  IsStored-of rs (rs', true) h a = a
  IsStored-of rs (rs', false) h a = (a.0 ∙ h.0 ∙ sym (ap texts_of a.1), a.2)

  renewed :
      (fields : List (Field x)) (rs : RowStore x) (r : RowStore x × Bool)
      → AfterFlush (record rs { fields = fields }) r
      → IsStored
          (if r.1 then r.0 else record r.0 { memory = new_memstore fields r.0.memory.offsets })
  unfolding AfterFlush new_memstore
  renewed fields rs (rs', true) a = a
  renewed fields rs (rs', false) a = (sym (ap texts_of a.1), empty-IsRadix)

  update_fields-IsStored :
      (clocks : Clocks) (fields : List (Field x)) (rs : RowStore x)
      → IsStored rs
      → Stays
          (update_fields w offset_of offset_size x q resolution blank sort clocks fields rs)
          IsStored
  unfolding update_fields new_memstore AfterFlush
  update_fields-IsStored clocks fields rs h =
      let rs' = record rs { fields = fields } in
      Stays-bind (flush_memory w offset_of offset_size x q resolution blank sort clocks false rs') _
        (AfterFlush rs') _ (flush_memory-AfterFlush clocks false rs' h.1) (renewed fields rs)

  module _ (added : List Sequence → List Sequence → ℤ) where
    -- A round keeps it that the memstore has the fields of the store and that its tree is a radix tree.
    step-IsStored :
        (e : Event x) (rs : RowStore x)
        → IsStored rs
        → Stays (step w offset_of offset_size x q resolution blank sort added e rs) IsStored
    unfolding step
    step-IsStored (inserted i) rs h =
        Stays-bind (insert x q resolution added (exprs_of rs.fields) i rs.memory) _ _ _
          (insert-keeps x q resolution added (exprs_of rs.fields) i rs.memory h.1)
          (λ ms m. (m.0 ∙ h.0, m.1))
    step-IsStored (due clocks) rs h =
        Stays-bind (flush_memory w offset_of offset_size x q resolution blank sort clocks false rs)
          _ (AfterFlush rs) _ (flush_memory-AfterFlush clocks false rs h.1)
          (λ r. IsStored-of rs r h)
    step-IsStored (forced clocks) rs h =
        Stays-bind (flush_memory w offset_of offset_size x q resolution blank sort clocks true rs) _
          (AfterFlush rs) _ (flush_memory-AfterFlush clocks true rs h.1) (λ r. IsStored-of rs r h)
    step-IsStored (fields_changed clocks fields) rs h = update_fields-IsStored clocks fields rs h

    run-stays :
        (es : List (Event x)) (rs : RowStore x)
        → IsStored rs
        → Stays (run w offset_of offset_size x q resolution blank sort added es rs) IsStored
    unfolding run
    run-stays [] rs h = h
    run-stays (e ∷ es) rs h =
        Stays-bind (step w offset_of offset_size x q resolution blank sort added e rs) _ IsStored
          IsStored (step-IsStored e rs h) (λ rs'. run-stays es rs')

    -- After any rounds, inserts, flushes and changes of the fields in any order, the memstore has the fields
    -- of the store, so that an insert updates the columns of these fields, and its tree is a radix tree.
    pub run-IsStored :
        (es : List (Event x)) (rs rs' : RowStore x)
        → IsStored rs
        → run w offset_of offset_size x q resolution blank sort added es rs ≡ some rs'
        → IsStored rs'
    run-IsStored es rs rs' h e = rw e at (run-stays es rs h)
