-- ===== src/Expr/Cell.antt =====
-- expr/aggregate.go, expr/avg.go: the bytes in which aggregates and averages keep their values, a flag
-- and one or two floats. Where Go panics on a buffer that is too short the result is `none`.
use mathlib.Core.List.{append_assoc}
use mathlib.Core.Path.{ap₂}
use zenodb.Prelude.{
  length-drop, ℕ, ◌≤◌, ◌≡◌, refl, ap, Bool, true, Option, none, some, List, [], ◌∷◌, ◌++◌, arith,
  ◌==◌, if◌then◌else◌, length, take, drop, ◌>>=◌,
}
use zenodb.Encoding.Binary.{put_uint64, uint64, uint64-put, uint64_total}
use zenodb.Expr.{Outside}

uint64-take :
    (b r : List ℕ)
    → 8 ≤ length b
    → (uint64 (take 8 b ++ r) ≡ uint64 b) × (drop 8 (take 8 b ++ r) ≡ r)
unfolding uint64
uint64-take [] r h = absurd (omega arith)
uint64-take (a1 ∷ []) r h = absurd (omega arith)
uint64-take (a1 ∷ a2 ∷ []) r h = absurd (omega arith)
uint64-take (a1 ∷ a2 ∷ a3 ∷ []) r h = absurd (omega arith)
uint64-take (a1 ∷ a2 ∷ a3 ∷ a4 ∷ []) r h = absurd (omega arith)
uint64-take (a1 ∷ a2 ∷ a3 ∷ a4 ∷ a5 ∷ []) r h = absurd (omega arith)
uint64-take (a1 ∷ a2 ∷ a3 ∷ a4 ∷ a5 ∷ a6 ∷ []) r h = absurd (omega arith)
uint64-take (a1 ∷ a2 ∷ a3 ∷ a4 ∷ a5 ∷ a6 ∷ a7 ∷ []) r h = absurd (omega arith)
uint64-take (a1 ∷ a2 ∷ a3 ∷ a4 ∷ a5 ∷ a6 ∷ a7 ∷ a8 ∷ b) r h = (refl, refl)

module _ (x : Outside) where
  open x use {Float, zero_float, bits, from_bits}

  -- `PutUint64(…, math.Float64bits(f))`.
  pub put_float : Float → List ℕ
  put_float f = put_uint64 (bits f)

  -- `aggregate.load`: the value, whether it was set, and what is behind the cell.
  unfoldable pub load : List ℕ → Option (Float × Bool × List ℕ)
  load [] = none
  load (flag ∷ b) = do
    u ← uint64 b
    some (if flag == 1 then from_bits u else zero_float, flag == 1, drop 8 b)

  -- `aggregate.save`, the nine bytes that it writes.
  pub saved : Float → List ℕ
  unfolding put_float
  saved value = 1 ∷ put_float value

  -- `avg.load`: count, total, whether they were set, and what is behind the cell.
  pub load_avg : List ℕ → Option (Float × Float × Bool × List ℕ)
  load_avg [] = none
  load_avg (flag ∷ b) = do
    u ← uint64 b
    v ← uint64 (drop 8 b)
    some (
      if flag == 1 then from_bits u else zero_float,
      if flag == 1 then from_bits v else zero_float,
      flag == 1,
      drop 16 b,
    )

  -- `avg.save`, the seventeen bytes that it writes.
  pub saved_avg : Float → Float → List ℕ
  unfolding put_float
  saved_avg count total = 1 ∷ (put_float count ++ put_float total)

  -- What is saved is loaded, whatever stands behind it.
  pub load-saved : (f : Float) (r : List ℕ) → load (saved f ++ r) ≡ some (f, true, r)
  unfolding load saved
  load-saved f r =
      let (p, q) = uint64-put (bits f) r (x.bits_lt f) in
      rw (p, q) (ap (λ v. some (v, true, r)) (x.from_bits-bits f))

  pub length-saved : (f : Float) → length (saved f) ≡ 9
  unfolding saved put_uint64
  length-saved f = refl

  drop_two : (c t : Float) (r : List ℕ) → drop 16 (put_float c ++ (put_float t ++ r)) ≡ r
  unfolding put_float put_uint64
  drop_two c t r = refl

  pub load_avg-saved :
      (c t : Float) (r : List ℕ) → load_avg (saved_avg c t ++ r) ≡ some (c, t, true, r)
  unfolding load_avg saved_avg put_float
  load_avg-saved c t r =
      let (p, q) = uint64-put (bits c) (put_float t ++ r) (x.bits_lt c) in
      let (p', q') = uint64-put (bits t) r (x.bits_lt t) in
      rw (append_assoc (put_float c) (put_float t) r, put_float, p, q, p', drop_two c t r)
        (ap₂ (λ v w. some (v, w, true, r)) (x.from_bits-bits c) (x.from_bits-bits t))

  pub length-saved_avg : (c t : Float) → length (saved_avg c t) ≡ 17
  unfolding saved_avg put_uint64
  length-saved_avg c t = refl

  -- A cell can be loaded from a buffer that is long enough, and only from such a one.
  pub load_total :
      (b : List ℕ) → 9 ≤ length b → (v : Float) × (s : Bool) × (load b ≡ some (v, s, drop 9 b))
  unfolding load
  load_total [] h = absurd (omega arith)
  load_total (flag ∷ b) h =
      let (u, p) = uint64_total b (omega arith) in
      (if flag == 1 then from_bits u else zero_float, flag == 1, rw p)

  pub load_avg_total :
      (b : List ℕ)
      → 17 ≤ length b
      → (c : Float) × (t : Float) × (s : Bool) × (load_avg b ≡ some (c, t, s, drop 17 b))
  unfolding load_avg
  load_avg_total [] h = absurd (omega arith)
  load_avg_total (flag ∷ b) h =
      let (u, p) = uint64_total b (omega arith) in
      let (v, q) = uint64_total (drop 8 b) (omega (arith, length-drop 8 b)) in
      (
        if flag == 1 then from_bits u else zero_float,
        if flag == 1 then from_bits v else zero_float,
        flag == 1,
        rw (p, q),
      )

  -- The bytes of a cell that is not written are those that were there.
  pub load-take :
      (b r rest : List ℕ) (v : Float) (s : Bool)
      → 9 ≤ length b
      → load b ≡ some (v, s, rest)
      → load (take 9 b ++ r) ≡ some (v, s, r)
  unfolding load
  load-take [] r rest v s h e = absurd (omega arith)
  load-take (flag ∷ b) r rest v s h e =
      let (u, p) = uint64_total b (omega arith) in
      let (k, l) = uint64-take b r (omega arith) in
      let behind : Option (Float × Bool × List ℕ) → Option (Float × Bool × List ℕ) =
        λ o. o >>= (λ c. some (c.0, c.1, r)) in
      let i = ap behind e in let j = rw p at i in rw (k, l, p) j
