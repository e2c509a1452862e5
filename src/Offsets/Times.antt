-- ===== src/Offsets/Times.antt =====
-- common/common.go: `LowestTS` and `HighestTS` over offsets that carry a time.
use zenodb.Prelude.{
  ℕ, ◌≡◌, ◌≢◌, ◌≤◌, ◌⊎◌, refl, some, [], ◌∷◌, arith, inl, inr, Bool-cases, ltb, ltb→lt, ◌==◌, ◌||◌,
  true, false, sym,
}
use zenodb.Prelude.Assoc.{Key, Assoc}
use zenodb.Offsets.{WalOffset, lowest_from, highest_from, lowest_ts, highest_ts}

module _ (w : WalOffset) {K : Type 0} ⦃key : Key K⦄ where
  open w use {Offset, ts}

  -- every offset of the map satisfies the predicate
  abbrev pub Every : (Offset → Type 0) → Assoc K Offset → Type 0
  Every P [] = Unit {0}
  Every P ((k, o) ∷ m) = P o × Every P m

  -- some offset of the map does
  abbrev pub Some : (Offset → Type 0) → Assoc K Offset → Type 0
  Some P [] = ⊥
  Some P ((k, o) ∷ m) = P o ⊎ Some P m

  -- What the loop of `LowestTS` ends with.
  record IsLowest (r end : ℕ) (m : Assoc K Offset) : Type 0 where
    start : end ≤ r
    every : Every (λ o. end ≤ ts o) m
    reached : (end ≡ r) ⊎ Some (λ o. ts o ≡ end) m

  lowest_from-IsLowest :
      (r : ℕ) (m : Assoc K Offset)
      → r ≢ 0
      → Every (λ o. ts o ≢ 0) m
      → IsLowest r (lowest_from w r m) m
  unfolding lowest_from
  lowest_from-IsLowest r [] h a = record { start = omega arith; every = tt; reached = inl refl }
  lowest_from-IsLowest r ((k, o) ∷ m) h a = elim (Bool-cases (ltb (ts o) r)) [
    | inl e ↦
        (let ih = lowest_from-IsLowest (ts o) m a.0 a.1 in
          let f : ((r == 0) || ltb (ts o) r) ≡ true = ground arith in
          rw f (record {
            start = omega (arith, ih.start, ltb→lt _ _ e);
            every = (ih.start, ih.every);
            reached = inr (elim ih.reached [ inl q ↦ inl (sym q) | inr q ↦ inr q ]);
          }))
    | inr e ↦
        (let ih = lowest_from-IsLowest r m h a.1 in
          let f : ((r == 0) || ltb (ts o) r) ≡ false = ground arith in
          let g : r ≤ ts o = ground arith in
          rw f (record {
            start = ih.start;
            every = (omega (arith, ih.start), ih.every);
            reached = elim ih.reached [ inl q ↦ inl q | inr q ↦ inr (inr q) ];
          }))
  ]

  -- What the loop of `HighestTS` ends with.
  record IsHighest (r end : ℕ) (m : Assoc K Offset) : Type 0 where
    start : r ≤ end
    every : Every (λ o. ts o ≤ end) m
    reached : (end ≡ r) ⊎ Some (λ o. ts o ≡ end) m

  highest_from-IsHighest :
      (r : ℕ) (m : Assoc K Offset)
      → r ≢ 0
      → Every (λ o. ts o ≢ 0) m
      → IsHighest r (highest_from w r m) m
  unfolding highest_from
  highest_from-IsHighest r [] h a = record { start = omega arith; every = tt; reached = inl refl }
  highest_from-IsHighest r ((k, o) ∷ m) h a = elim (Bool-cases (ltb r (ts o))) [
    | inl e ↦
        (let ih = highest_from-IsHighest (ts o) m a.0 a.1 in
          let f : ((r == 0) || ltb r (ts o)) ≡ true = ground arith in
          rw f (record {
            start = omega (arith, ih.start, ltb→lt _ _ e);
            every = (ih.start, ih.every);
            reached = inr (elim ih.reached [ inl q ↦ inl (sym q) | inr q ↦ inr q ]);
          }))
    | inr e ↦
        (let ih = highest_from-IsHighest r m h a.1 in
          let f : ((r == 0) || ltb r (ts o)) ≡ false = ground arith in
          let g : ts o ≤ r = ground arith in
          rw f (record {
            start = ih.start;
            every = (omega (arith, ih.start), ih.every);
            reached = elim ih.reached [ inl q ↦ inl q | inr q ↦ inr (inr q) ];
          }))
  ]

  -- With no zero time among them, `LowestTS` and `HighestTS` are the least and the greatest time of
  -- the offsets.
  pub times_bound :
      (k : K) (o : Offset) (m : Assoc K Offset)
      → Every (λ o. ts o ≢ 0) ((k, o) ∷ m)
      → let low = lowest_ts w (some ((k, o) ∷ m)) in
        let high = highest_ts w (some ((k, o) ∷ m)) in
        Every (λ o. low ≤ ts o) ((k, o) ∷ m)
        × Every (λ o. ts o ≤ high) ((k, o) ∷ m)
        × Some (λ o. ts o ≡ low) ((k, o) ∷ m)
        × Some (λ o. ts o ≡ high) ((k, o) ∷ m)
  unfolding lowest_ts highest_ts
  times_bound k o m a = (
    (low.start, low.every),
    (high.start, high.every),
    elim low.reached [ inl q ↦ inl (sym q) | inr q ↦ inr q ],
    elim high.reached [ inl q ↦ inl (sym q) | inr q ↦ inr q ],
  )
    where
      low : IsLowest (ts o) (lowest_from w (ts o) m) m
      low = lowest_from-IsLowest (ts o) m a.0 a.1

      high : IsHighest (ts o) (highest_from w (ts o) m) m
      high = highest_from-IsHighest (ts o) m a.0 a.1
