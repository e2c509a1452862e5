-- ===== src/Sequence/Values/Slots.antt =====
-- encoding/seq.go: an update of a period touches that period alone, and is read back from it.
use native.Mathlib.Nat.{mul-le-mul_right}
use zenodb.Prelude.{
  ℕ, suc, ◌+◌, ◌-◌, ◌*◌, ◌≤◌, ◌<◌, ◌≡◌, ◌≢◌, refl, ap, sym, ◌∙◌, true, false, Option, some, List,
  [], ◌∷◌, ◌++◌, arith, leb, ltb, length, take, drop, length-append, length-take, length-drop,
  drop-drop, take-drop-take, take-append_left, drop-append_left, drop-append_past, Yields-some,
  Yields, Yields-map, Bool-cases, inl, inr,
}
use zenodb.Prelude.Int.{pos}
use zenodb.Expr.{Outside, Expr, Params, encoded_width, is_constant}
use zenodb.Expr.Buffer.{Updated, Got, get, update}
use zenodb.Expr.Buffer.Width.{IsSound, Took, update_total}
use zenodb.Expr.Buffer.Reads.{IsStored, get-update, stored_pos}
use zenodb.Sequence.{Sequence}
use zenodb.Sequence.Periods.{period}
use zenodb.Sequence.Values.{update_value_at_offset, update_value_at, value_at_offset, value_at}

-- Two lists that agree outside of w elements at k.
pub record AgreesBut (k w : ℕ) (r s : List ℕ) : Type 0 where
  pub same_length : length r ≡ length s
  pub before : take k r ≡ take k s
  pub after : drop (k + w) r ≡ drop (k + w) s

-- Then any stretch outside of these is the same.
AgreesBut-left :
    (k w n m : ℕ) (r s : List ℕ)
    → AgreesBut k w r s
    → n + m ≤ k
    → take m (drop n r) ≡ take m (drop n s)
AgreesBut-left k w n m r s a h =
    sym (take-drop-take m n k r h) ∙ ap (λ l. take m (drop n l)) a.before ∙ take-drop-take m n k s h

AgreesBut-right :
    (k w n m : ℕ) (r s : List ℕ)
    → AgreesBut k w r s
    → k + w ≤ n
    → take m (drop n r) ≡ take m (drop n s)
AgreesBut-right k w n m r s a h =
    let e : k + w + (n - (k + w)) ≡ n = omega arith in
    ap (take m) (
      sym (drop-drop (k + w) (n - (k + w)) r ∙ ap (λ i. drop i r) e)
      ∙ ap (drop (n - (k + w))) a.after
      ∙ drop-drop (k + w) (n - (k + w)) s
      ∙ ap (λ i. drop i s) e)

pub AgreesBut-period :
    (width p j : ℕ) (r s : Sequence)
    → AgreesBut (p * width + 8) width r s
    → j ≢ p
    → period width j (drop 8 r) ≡ period width j (drop 8 s)
unfolding period
AgreesBut-period width p j r s a h =
    rw
      (
        drop-drop 8 (j * width) r,
        drop-drop 8 (j * width) s,
        length-drop 8 r,
        length-drop 8 s,
        a.same_length,
        same,
      )
      refl
  where
    same : take width (drop (8 + j * width) r) ≡ take width (drop (8 + j * width) s)
    same = elim (Bool-cases (ltb j p)) [
      | inl e ↦
          let g : suc j ≤ p = ground (arith, e) in
          let i : suc j * width ≡ j * width + width = grind arith in
          AgreesBut-left (p * width + 8) width (8 + j * width) width r s a
            (omega (arith, mul-le-mul_right width g, i))
      | inr e ↦
          let g : suc p ≤ j = ground (arith, e, h) in
          let i : suc p * width ≡ p * width + width = grind arith in
          AgreesBut-right (p * width + 8) width (8 + j * width) width r s a
            (omega (arith, mul-le-mul_right width g, i))
    ]

-- A stretch is replaced by as many bytes.
replaced-AgreesBut :
    (k w : ℕ) (s written : List ℕ)
    → k + w ≤ length s
    → length written ≡ w
    → AgreesBut k w (take k s ++ (written ++ drop w (drop k s))) s
replaced-AgreesBut k w s written h e =
    let d = drop w (drop k s) in
    let l : length (take k s) ≡ k = omega (arith, length-take k s) in
    record {
      same_length = omega (
        arith,
        length-append (take k s) (written ++ d),
        length-append written d,
        l,
        length-drop w (drop k s),
        length-drop k s,
      );
      before =
          ap (λ i. take i (take k s ++ (written ++ d))) (sym l)
          ∙ take-append_left (take k s) (written ++ d);
      after =
          drop-append_past k w (take k s) (written ++ d) (sym l)
          ∙ ap (λ i. drop i (written ++ d)) (sym e)
          ∙ drop-append_left written d
          ∙ drop-drop k w s;
    }

module _ (x : Outside) (params : Params x) (metadata : Option x.Metadata) where
  -- What an update at an offset leaves, where the period is in the sequence.
  abbrev UpdatesAt : ℕ → Expr x → Sequence → Sequence → Type 0
  UpdatesAt offset e s r =
      (u : Updated x) × (update x params metadata e (drop (offset + 8) s) ≡ some u)
      × AgreesBut (offset + 8) (encoded_width x e) r s
      × (drop (offset + 8) r ≡ u.written ++ u.remain)

  pub update_value_at_offset_lem :
      (offset : ℕ) (e : Expr x) (s : Sequence)
      → IsSound x e
      → offset + 8 + encoded_width x e ≤ length s
      → Yields (update_value_at_offset x params metadata offset e s) (UpdatesAt offset e s)
  unfolding update_value_at_offset
  update_value_at_offset_lem offset e s i h =
      let b = drop (offset + 8) s in
      let n : encoded_width x e ≤ length b = omega (arith, length-drop (offset + 8) s) in
      let (u, p, t) =
        Yields-some (update x params metadata e b) (Took x (encoded_width x e) b)
          (update_total x params metadata e b i n) in
      let f : leb (offset + 8) (length s) ≡ true = ground (arith, h) in
      let l : length (take (offset + 8) s) ≡ offset + 8 =
        omega (arith, length-take (offset + 8) s) in
      let a = replaced-AgreesBut (offset + 8) (encoded_width x e) s u.written h t.took in
      rw (f, p)
        (
          u,
          p,
          rw t.left a,
          ap (λ k. drop k (take (offset + 8) s ++ (u.written ++ u.remain))) (sym l)
              ∙ drop-append_left (take (offset + 8) s) (u.written ++ u.remain),
        )

  -- A value is read at an offset from the bytes there.
  value_at_lem :
      (p : ℕ) (e : Expr x) (r : Sequence) (g : Got x)
      → is_constant x e ≡ false
      → p * encoded_width x e + 8 < length r
      → get x e (drop (p * encoded_width x e + 8) r) ≡ some g
      → value_at x (pos p) e r ≡ some (g.value, g.was_set)
  unfolding value_at value_at_offset
  value_at_lem p e [] g c h eq = absurd (omega arith)
  value_at_lem p e (y ∷ r) g c h eq =
      let f : leb (length (y ∷ r)) (p * encoded_width x e + 8) ≡ false = ground (arith, h) in
      rw (c, f, eq) refl

  -- In a sequence that has the period, `UpdateValueAt` of an aggregate or an average, which may be
  -- bounded, conditional or shifted, does not panic and leaves every other period as it was; and if
  -- it has updated, `ValueAt` of the period gives the value of the update. What aggregates and
  -- averages wrap has no bytes, and the expression is not constant.
  pub update_value_at_lem :
      (p : ℕ) (e : Expr x) (s : Sequence)
      → IsSound x e
      → IsStored x e
      → is_constant x e ≡ false
      → p * encoded_width x e + 8 + encoded_width x e ≤ length s
      → Yields (update_value_at x params metadata p e s) (λ r.
        (length r ≡ length s)
        × ((j : ℕ)
            → j ≢ p
            → period (encoded_width x e) j (drop 8 r) ≡ period (encoded_width x e) j (drop 8 s))
        × ((u : Updated x) × (update x params metadata e (drop (p * encoded_width x e + 8) s)
              ≡ some u)
            × (u.updated ≡ true → value_at x (pos p) e r ≡ some (u.value, true))))
  unfolding update_value_at
  update_value_at_lem p e s i t c h =
      Yields-map (update_value_at_offset x params metadata (p * encoded_width x e) e s) _ _
        (update_value_at_offset_lem (p * encoded_width x e) e s i h)
        (λ r (u, eq, a, b). (
          a.same_length,
          λ j n. AgreesBut-period (encoded_width x e) p j r s a n,
          (
            u,
            eq,
            λ up.
                value_at_lem p e r (record { value = u.value; was_set = true; remain = u.remain }) c
                  (omega (arith, a.same_length, stored_pos x e t))
                  (ap (get x e) b
                    ∙ (let k =
                          get-update x params metadata e (drop (p * encoded_width x e + 8) s)
                            u.remain i t
                            (omega (arith, length-drop (p * encoded_width x e + 8) s)) in
                        let k' = rw eq at k in k' up)),
          ),
        ))
