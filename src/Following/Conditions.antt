-- ===== src/Following/Conditions.antt =====
-- cluster_follow.go: for an entry of the log, the partition that it is in and the tables whose conditions
-- it meets. A condition is evaluated once for all tables with the same text.
use zenodb.Prelude.{
  ℕ, ◌≡◌, refl, sym, ◌∙◌, Bool, true, false, Option, none, some, [], ◌∷◌, arith, ◌>>=◌, ◌⊎◌,
  Bool-cases, Option-cases, inl, inr,
}
use zenodb.Prelude.Assoc.{Key, Assoc, int_key, get, put, get-put}
use zenodb.Offsets.{WalOffset}
use zenodb.Following.{Hashing, partition_for, TableSpec, PartitionsResult, Partitions}
use zenodb.Following.Dispatch.{specs_of}

module _ (w : WalOffset) {Name Where : Type 0} ⦃name : Key Name⦄ where
  -- Whether a table has followers in a partition.
  pub has_followers : ℕ → TableSpec w Name Where → Bool
  has_followers pid table = elim (specs_of w pid table) [
    | none ↦ false
    | some [] ↦ false
    | some (s ∷ specs) ↦ true
  ]

  -- `table.where.Eval(dims).(bool)` is a parameter; it may panic. No condition is met.
  module _ (eval : Where → Option Bool) where
    unfoldable pub is_met : TableSpec w Name Where → Option Bool
    is_met table = elim table.condition [ none ↦ some true | some c ↦ eval c ]

    -- The condition of a table, by `whereResults`, and these after it.
    pub look_up : TableSpec w Name Where → Assoc Name Bool → Option (Bool × Assoc Name Bool)
    unfolding is_met
    look_up table known = elim (get table.condition_text known) [
      | some b ↦ some (b, known)
      | none ↦ (is_met table >>= λ b. some (b, put table.condition_text b known))
    ]

    -- The loop over the tables: `pr.wherePassed` and `whereResults` after it.
    pub map_tables :
        ℕ
        → Assoc Name (TableSpec w Name Where)
        → Assoc Name Bool
        → Assoc Name Bool
        → Option (Assoc Name Bool × Assoc Name Bool)
    unfolding has_followers look_up
    map_tables pid [] passed known = some (passed, known)
    map_tables pid ((n, table) ∷ tables) passed known = elim (has_followers pid table) [
      | false ↦ map_tables pid tables passed known
      | true ↦ (look_up table known >>= λ m. map_tables pid tables (put n m.0 passed) m.1)
    ]

    -- The same where each condition is evaluated for each table.
    plain_tables :
        ℕ → Assoc Name (TableSpec w Name Where) → Assoc Name Bool → Option (Assoc Name Bool)
    unfolding has_followers is_met
    plain_tables pid [] passed = some passed
    plain_tables pid ((n, table) ∷ tables) passed = elim (has_followers pid table) [
      | false ↦ plain_tables pid tables passed
      | true ↦ (is_met table >>= λ b. plain_tables pid tables (put n b passed))
    ]

    module _ (h : Hashing Name) (num_partitions : ℕ) (dims : h.Dims) where
      -- The loop over the partitions.
      pub map_partitions :
          Partitions w Name Where
          → Assoc Name Bool
          → PartitionsResult w Name Where
          → Option (PartitionsResult w Name Where)
      unfolding map_tables
      map_partitions [] known result = some result
      map_partitions ((n, ps) ∷ rest) known result = do
        pid ← partition_for h num_partitions dims ps.keys
        m ← map_tables pid ps.tables [] known
        map_partitions rest m.1 (put n (record { pid = pid; where_passed = m.0 }) result)

      -- `mapPartitionRequest`: none where it panics, and sends no result.
      pub map_partition_request : Partitions w Name Where → Option (PartitionsResult w Name Where)
      unfolding map_partitions
      map_partition_request ps = map_partitions ps [] []

      pub plain_partitions :
          Partitions w Name Where
          → PartitionsResult w Name Where
          → Option (PartitionsResult w Name Where)
      unfolding plain_tables
      plain_partitions [] result = some result
      plain_partitions ((n, ps) ∷ rest) result = do
        pid ← partition_for h num_partitions dims ps.keys
        passed ← plain_tables pid ps.tables []
        plain_partitions rest (put n (record { pid = pid; where_passed = passed }) result)

    -- The text of a condition tells how it evaluates, and what is known is so.
    module _ (value : Name → Option Bool) where
      unfoldable pub AreTold : Assoc Name (TableSpec w Name Where) → Type 0
      AreTold [] = Unit {0}
      AreTold ((n, table) ∷ tables) = (is_met table ≡ value table.condition_text) × AreTold tables

      unfoldable pub AllAreTold : Partitions w Name Where → Type 0
      AllAreTold [] = Unit {0}
      AllAreTold ((n, ps) ∷ rest) = AreTold ps.tables × AllAreTold rest

      IsKnown : Assoc Name Bool → Type 0
      IsKnown known = (t : Name) (b : Bool) → get t known ≡ some b → value t ≡ some b

      Looked : TableSpec w Name Where → Assoc Name Bool → Type 0
      Looked table known =
          ((is_met table ≡ none) × (look_up table known ≡ none))
          ⊎ ((b : Bool) × (after : Assoc Name Bool) × (is_met table ≡ some b)
              × (look_up table known ≡ some (b, after))
              × IsKnown after)

      put-IsKnown :
          (t : Name) (b : Bool) (known : Assoc Name Bool)
          → IsKnown known
          → value t ≡ some b
          → IsKnown (put t b known)
      unfolding IsKnown
      put-IsKnown t b known k e u c h =
          ground (arith, get-put t b known u, name.same_iff t u, k u c, e, h)

      look_up_lem :
          (table : TableSpec w Name Where) (known : Assoc Name Bool)
          → is_met table ≡ value table.condition_text
          → IsKnown known
          → Looked table known
      unfolding look_up Looked IsKnown
      look_up_lem table known e k = elim (Option-cases (get table.condition_text known)) [
        | inr (b, g) ↦ inr (b, known, e ∙ k table.condition_text b g, rw (look_up, g) refl, k)
        | inl g ↦ elim (Option-cases (is_met table)) [
          | inl n ↦ inl (n, rw (look_up, g, n) refl)
          | inr (b, n) ↦ inr (
            b,
            put table.condition_text b known,
            n,
            rw (look_up, g, n) refl,
            put-IsKnown table.condition_text b known k (sym e ∙ n),
          )
        ]
      ]

      Mapped : ℕ → Assoc Name (TableSpec w Name Where) → Assoc Name Bool → Assoc Name Bool → Type 0
      Mapped pid tables passed known =
          ((plain_tables pid tables passed ≡ none) × (map_tables pid tables passed known ≡ none))
          ⊎ ((p : Assoc Name Bool) × (after : Assoc Name Bool) × (plain_tables pid tables passed
                ≡ some p)
              × (map_tables pid tables passed known ≡ some (p, after))
              × IsKnown after)

      map_tables_lem :
          (pid : ℕ) (tables : Assoc Name (TableSpec w Name Where)) (passed known : Assoc Name Bool)
          → AreTold tables
          → IsKnown known
          → Mapped pid tables passed known
      unfolding plain_tables map_tables Mapped AreTold Looked
      map_tables_lem pid [] passed known a k = inr (passed, known, refl, refl, k)
      map_tables_lem pid ((n, table) ∷ tables) passed known a k =
          elim (Bool-cases (has_followers pid table)) [
            | inl f ↦ elim (look_up_lem table known a.0 k) [
              | inl (e, l) ↦ inl (rw (plain_tables, f, e) refl, rw (map_tables, f, l) refl)
              | inr (b, after, e, l, k') ↦
                  rw (Mapped, plain_tables, map_tables, f, e, l)
                    (map_tables_lem pid tables (put n b passed) after a.1 k')
            ]
            | inr f ↦
                rw (Mapped, plain_tables, map_tables, f)
                  (map_tables_lem pid tables passed known a.1 k)
          ]

      module _ (h : Hashing Name) (num_partitions : ℕ) (dims : h.Dims) where
        map_partitions_lem :
            (ps : Partitions w Name Where) (known : Assoc Name Bool)
            (result : PartitionsResult w Name Where)
            → AllAreTold ps
            → IsKnown known
            → map_partitions h num_partitions dims ps known result
              ≡ plain_partitions h num_partitions dims ps result
        unfolding map_partitions plain_partitions AllAreTold Mapped
        map_partitions_lem [] known result a k = refl
        map_partitions_lem ((n, ps) ∷ rest) known result a k =
            elim (Option-cases (partition_for h num_partitions dims ps.keys)) [
              | inl e ↦ rw e refl
              | inr (pid, e) ↦ elim (map_tables_lem pid ps.tables [] known a.0 k) [
                | inl (p, m) ↦ rw (e, p, m) refl
                | inr (passed, after, p, m, k') ↦
                    rw (e, p, m)
                      (map_partitions_lem rest after
                        (put n (record { pid = pid; where_passed = passed }) result) a.1 k')
              ]
            ]

        -- Where the text of a condition tells how it evaluates, `mapPartitionRequest` gives what it would
        -- give if it evaluated the condition of each table, and panics where that would.
        pub map_partition_request_lem :
            (ps : Partitions w Name Where)
            → AllAreTold ps
            → map_partition_request h num_partitions dims ps
              ≡ plain_partitions h num_partitions dims ps []
        unfolding map_partition_request IsKnown get
        map_partition_request_lem ps a =
            map_partitions_lem ps [] [] a (λ t b e. absurd (ground (arith, e)))
