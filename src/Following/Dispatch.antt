-- ===== src/Following/Dispatch.antt =====
-- cluster_follow.go: an entry of the log goes to the followers that are behind it, in the partition that
-- its dimensions hash to.
use zenodb.Prelude.{
  ℕ, ◌≡◌, refl, sym, ◌∙◌, Bool, false, Option, none, some, List, [], ◌∷◌, ◌++◌, arith, ◌==◌,
  if◌then◌else◌, ◌>>=◌, Bool-cases, Option-cases, inl, inr, Yields, Yields-some,
}
use mathlib.Core.Path.{subst}
use zenodb.Prelude.Assoc.{Key, Assoc, int_key, get, put, get-put}
use zenodb.Offsets.{WalOffset}
use zenodb.Metrics.{FollowerId, follower_key}
use zenodb.Following.{Specs, TableSpec, PartitionResult, PartitionsResult, Partitions}

module _ (w : WalOffset) where
  open w use {Offset, after}

  -- The followers among the specs of a table that are behind an offset, and the specs after it.
  pub behind : Offset → Specs w → List FollowerId
  behind offset [] = []
  behind offset ((i, spec) ∷ specs) =
      if after offset spec.offset
      then spec.follower_id ∷ behind offset specs
      else behind offset specs

  pub caught_up : Offset → Specs w → Specs w
  caught_up offset [] = []
  caught_up offset ((i, spec) ∷ specs) =
      (i, if after offset spec.offset then record spec { offset = offset } else spec)
      ∷ caught_up offset specs

  -- Who is not behind an offset is not behind one that is not after it.
  pub not_behind :
      (offset later o : Offset)
      → after later offset ≡ false
      → after offset o ≡ false
      → after later o ≡ false
  not_behind offset later o h e = elim (Bool-cases (after later o)) [
    | inr a ↦ a
    | inl a ↦ elim (Bool-cases (after o offset)) [
      | inl b ↦ absurd (ground (arith, w.after_trans later o offset a b, h))
      | inr b ↦ absurd (ground (arith, w.after_total o offset b e, a, h))
    ]
  ]

  -- The specs that have caught up with an offset are behind none that is not after it.
  pub behind-caught_up :
      (offset later : Offset) (specs : Specs w)
      → after later offset ≡ false
      → behind later (caught_up offset specs) ≡ []
  unfolding behind caught_up
  behind-caught_up offset later [] h = refl
  behind-caught_up offset later ((i, spec) ∷ specs) h =
      elim (Bool-cases (after offset spec.offset)) [
        | inl e ↦ rw (e, h) (behind-caught_up offset later specs h)
        | inr e ↦
            rw (e, not_behind offset later spec.offset h e) (behind-caught_up offset later specs h)
      ]

  same_behind :
      (later : Offset) (a b : Specs w)
      → ◌≡◌ {A = Option (Specs w)} (some a) (some b)
      → behind later b ≡ []
      → behind later a ≡ []
  same_behind later a b e h = ground (arith, e, h)

  same_pid :
      (pid : ℕ) (a : Specs w) (o : Option (Specs w)) → (if pid == pid then some a else o) ≡ some a
  same_pid pid a o = ground arith

  module _ {Name Where : Type 0} ⦃name : Key Name⦄ where
    pub specs_of : ℕ → TableSpec w Name Where → Option (Specs w)
    specs_of pid table = get pid table.followers_by_partition

    -- A round of the loop over the tables: whom the entry is for, and the table after it.
    pub dispatch_table :
        Offset → ℕ → Bool → TableSpec w Name Where → List FollowerId × TableSpec w Name Where
    unfolding behind caught_up specs_of
    dispatch_table offset pid passed table = elim (specs_of pid table) [
      | none ↦ ([], table)
      | some [] ↦ ([], table)
      | some (s ∷ specs) ↦ (
        if passed then behind offset (s ∷ specs) else [],
        record table {
          followers_by_partition =
              put pid (caught_up offset (s ∷ specs)) table.followers_by_partition;
        },
      )
    ]

    -- `pr.wherePassed[tableName]`.
    pub has_passed : Name → PartitionResult w Name Where → Bool
    has_passed n pr = elim (get n pr.where_passed) [ none ↦ false | some b ↦ b ]

    pub dispatch_tables :
        Offset
        → PartitionResult w Name Where
        → Assoc Name (TableSpec w Name Where)
        → List FollowerId × Assoc Name (TableSpec w Name Where)
    unfolding dispatch_table has_passed
    dispatch_tables offset pr [] = ([], [])
    dispatch_tables offset pr ((n, table) ∷ tables) =
        let (ids, table') = dispatch_table offset pr.pid (has_passed n pr) table in
        let (rest, tables') = dispatch_tables offset pr tables in
        (ids ++ rest, (n, table') ∷ tables')

    -- The loop over the partitions: `includedFollowers`, and the partitions after it. The result of a
    -- partition that is missing is nil, and panics.
    pub dispatch :
        Offset
        → PartitionsResult w Name Where
        → Partitions w Name Where
        → Option (List FollowerId × Partitions w Name Where)
    unfolding dispatch_tables
    dispatch offset result [] = some ([], [])
    dispatch offset result ((n, ps) ∷ partitions) = do
      pr ← get n result
      let here = dispatch_tables offset pr ps.tables
      rest ← dispatch offset result partitions
      some (here.0 ++ rest.0, (n, record ps { tables = here.1 }) ∷ rest.1)

    -- In a table nobody of a partition is behind an offset.
    pub IsPast : Offset → ℕ → TableSpec w Name Where → Type 0
    IsPast later pid table =
        (specs : Specs w)
        → get pid table.followers_by_partition ≡ some specs
        → behind later specs ≡ []

    dispatch_table-IsPast :
        (offset later : Offset) (pid : ℕ) (passed : Bool) (table : TableSpec w Name Where)
        → after later offset ≡ false
        → IsPast later pid (dispatch_table offset pid passed table).1
    unfolding IsPast behind dispatch_table specs_of
    dispatch_table-IsPast offset later pid passed table h =
        elim (Option-cases (get pid table.followers_by_partition)) [
          | inl e ↦
              rw (IsPast, dispatch_table, specs_of, e) (λ specs k. absurd (ground (arith, e, k)))
          | inr ([], e) ↦
              rw (IsPast, dispatch_table, specs_of, e)
                (λ specs k. same_behind later specs [] (sym k ∙ e) refl)
          | inr (s ∷ specs, e) ↦
              rw (IsPast, dispatch_table, specs_of, e)
                (λ specs' k.
                  same_behind later specs' (caught_up offset (s ∷ specs))
                    (sym k
                      ∙ rw
                          (get-put pid (caught_up offset (s ∷ specs)) table.followers_by_partition
                            pid)
                          (same_pid pid (caught_up offset (s ∷ specs))
                            (get pid table.followers_by_partition)))
                    (behind-caught_up offset later (s ∷ specs) h))
        ]

    past_none :
        (later : Offset) (pid : ℕ) (passed : Bool) (table : TableSpec w Name Where)
        → IsPast later pid table
        → (dispatch_table later pid passed table).0 ≡ []
    unfolding IsPast dispatch_table specs_of
    past_none later pid passed table h =
        elim (Option-cases (get pid table.followers_by_partition)) [
          | inl e ↦ rw (dispatch_table, specs_of, e) refl
          | inr ([], e) ↦ rw (dispatch_table, specs_of, e) refl
          | inr (s ∷ specs, e) ↦ rw (dispatch_table, specs_of, e) (ground (arith, h (s ∷ specs) e))
        ]

    dispatch_tables-again :
        (offset later : Offset) (pr pr' : PartitionResult w Name Where)
        (tables : Assoc Name (TableSpec w Name Where))
        → after later offset ≡ false
        → pr.pid ≡ pr'.pid
        → (dispatch_tables later pr' (dispatch_tables offset pr tables).1).0 ≡ []
    unfolding dispatch_tables
    dispatch_tables-again offset later pr pr' [] h p = refl
    dispatch_tables-again offset later pr pr' ((n, table) ∷ tables) h p =
        let t = dispatch_table-IsPast offset later pr.pid (has_passed n pr) table h in
        let k =
          past_none later pr'.pid (has_passed n pr')
            (dispatch_table offset pr.pid (has_passed n pr) table).1
            (subst (λ i. IsPast later i (dispatch_table offset pr.pid (has_passed n pr) table).1) p
              t) in
        rw (k, dispatch_tables-again offset later pr pr' tables h p) refl

    -- Two results have each partition, with the same number.
    unfoldable pub Agree :
        PartitionsResult w Name Where
        → PartitionsResult w Name Where
        → Partitions w Name Where
        → Type 0
    Agree r r' [] = Unit {0}
    Agree r r' ((n, ps) ∷ rest) =
        ((a : PartitionResult w Name Where) × (b : PartitionResult w Name Where) × (get n r
            ≡ some a)
          × (get n r' ≡ some b)
          × (a.pid ≡ b.pid))
        × Agree r r' rest

    -- Where two results have each partition, with the same number: when an entry has gone out to its
    -- followers, it, or one that is not after it, goes to nobody when it comes again, whatever the
    -- results say of conditions, and neither round panics.
    pub dispatch-again :
        (offset later : Offset) (r r' : PartitionsResult w Name Where)
        (ps : Partitions w Name Where)
        → after later offset ≡ false
        → Agree r r' ps
        → Yields (dispatch offset r ps) (λ d. Yields (dispatch later r' d.1) (λ d'. d'.0 ≡ []))
    unfolding dispatch Agree
    dispatch-again offset later r r' [] h g = refl
    dispatch-again offset later r r' ((n, ps) ∷ rest) h ((a, b, ea, eb, p), g) =
        let (d, e, y) =
          Yields-some (dispatch offset r rest) _ (dispatch-again offset later r r' rest h g) in
        let (d', e', y') = Yields-some (dispatch later r' d.1) _ y in
        rw (ea, e) (rw (eb, e') (rw (dispatch_tables-again offset later a b ps.tables h p) y'))
