-- ===== src/Sequence/Values.antt =====
-- encoding/seq.go: reading and updating the values of a sequence.
pub mod Slots
use zenodb.Prelude.{
  refl, ap, arith, ℕ, suc, ◌+◌, ◌-◌, ◌*◌, ◌≤◌, ◌≡◌, Bool, true, false, ◌||◌, Option, none, some,
  List, [], ◌∷◌, ◌++◌, ◌==◌, leb, ltb, min, if◌then◌else◌, length, take, drop, replicate, is_nil,
  ◌>>=◌,
}
use zenodb.Prelude.Int.{ℤ, pos, negsuc}
use zenodb.Encoding.Duration.{since}
use zenodb.Encoding.Time.{Time, round_time_up}
use zenodb.Encoding.Until.{Quotients, round_time_until_up}
use zenodb.Expr.{Outside, Expr, Params, encoded_width, is_constant}
use zenodb.Expr.Buffer.{get, update}
use zenodb.Sequence.{Sequence, quotient, new_sequence, until, set_until, num_periods, truncate}

-- `copy(dst[at:], src)`.
pub copy_to : List ℕ → ℕ → List ℕ → Option (List ℕ)
copy_to dst at src =
    let n = min (length dst - at) (length src) in
    if leb at (length dst) then some (take at dst ++ (take n src ++ drop (at + n) dst)) else none

take-length : (xs : List ℕ) → take (length xs) xs ≡ xs
take-length [] = refl
take-length (x ∷ xs) = ap (λ l. x ∷ l) (take-length xs)

pub copy_to_lem :
    (dst : List ℕ) (at : ℕ) (src : List ℕ)
    → at + length src ≤ length dst
    → copy_to dst at src ≡ some (take at dst ++ (src ++ drop (at + length src) dst))
unfolding copy_to
copy_to_lem dst at src h =
    let n : min (length dst - at) (length src) ≡ length src = omega arith in
    let f : leb at (length dst) ≡ true = ground (arith, h) in rw (f, n, take-length src) refl

module _ (x : Outside) where
  open x use {Float, zero_float, Metadata}

  -- `ValueAtOffset`, `ValueAt` and `ValueAtTime`: a value and whether it was found.
  constant_value : Expr x → Option (Float × Bool)
  constant_value e = do g ← get x e []; some (g.value, g.was_set)

  unfoldable pub value_at_offset : ℕ → Expr x → Sequence → Option (Float × Bool)
  unfolding constant_value
  value_at_offset offset e seq =
      if is_constant x e
      then constant_value e
      else if is_nil seq || leb (length seq) (offset + 8)
      then some (zero_float, false)
      else do g ← get x e (drop (offset + 8) seq); some (g.value, g.was_set)

  unfoldable pub value_at : ℤ → Expr x → Sequence → Option (Float × Bool)
  unfolding constant_value
  value_at (negsuc n) e seq = if is_constant x e then constant_value e else some (zero_float, false)
  value_at (pos period) e seq =
      if is_constant x e
      then constant_value e
      else if is_nil seq
      then some (zero_float, false)
      else value_at_offset (period * encoded_width x e) e seq

  unfoldable pub value_at_time : Quotients → Time → Expr x → ℕ → Sequence → Option (Float × Bool)
  unfolding constant_value
  value_at_time q t e resolution seq =
      if is_constant x e
      then constant_value e
      else if is_nil seq
      then some (zero_float, false)
      else do
        u ← until seq
        let t' = round_time_until_up q t resolution u
        if ltb u t'
            then some (zero_float, false)
            else do period ← quotient (since u t') resolution; value_at (pos period) e seq

  module _ (params : Params x) (metadata : Option Metadata) where
    -- `UpdateValueAtOffset` and `UpdateValueAt`, the sequence after it.
    pub update_value_at_offset : ℕ → Expr x → Sequence → Option Sequence
    update_value_at_offset offset e seq =
        if leb (offset + 8) (length seq)
        then (update x params metadata e (drop (offset + 8) seq) >>= λ u.
            some (take (offset + 8) seq ++ (u.written ++ u.remain)))
        else none

    pub update_value_at : ℕ → Expr x → Sequence → Option Sequence
    update_value_at period e seq = update_value_at_offset (period * encoded_width x e) e seq

    -- `NewValue`, and the same new sequence in `UpdateValue`.
    pub new_value : Expr x → Time → Option Sequence
    new_value e ts = do s ← set_until (new_sequence (encoded_width x e) 1) ts; update_value_at 0 e s

    -- `UpdateValue` where the time is after the end of the sequence.
    pub prepend_value : Expr x → Time → ℕ → ℕ → Sequence → Option Sequence
    prepend_value e ts gap_periods max_periods seq = do
      let width = encoded_width x e
      n ← num_periods width seq
      let num = n + gap_periods
      let cut = ltb max_periods num
      let num' = if cut then max_periods else num
      let orig_end = if cut then 8 + width * (num' - gap_periods) else length seq
      out ← copy_to (new_sequence width num') (8 + gap_periods * width) (drop 8 (take orig_end seq))
      s ← set_until out ts
      update_value_at 0 e s

    -- `UpdateValue` where the time is not after the end of the sequence.
    pub update_existing : Expr x → ℕ → Sequence → Option Sequence
    update_existing e period seq =
        let width = encoded_width x e in
        let offset = period * width in
        if leb (length seq) (offset + width)
        then (copy_to (replicate (offset + 8 + width) 0) 0 seq >>= update_value_at_offset offset e)
        else update_value_at_offset offset e seq

    -- `UpdateValue`.
    pub update_value : Quotients → Time → Expr x → ℕ → Time → Sequence → Option Sequence
    update_value q ts e resolution truncate_before seq = do
      let width = encoded_width x e
      start ← until seq
      let ts' = round_time_up ts resolution
      let u = if start == 0 then ts' else start
      let before = round_time_until_up q truncate_before resolution u
      if leb ts' before
          then (truncate q width resolution before 0 seq >>= λ t. some t.result)
          else if is_nil seq
          then new_value e ts'
          else do
            gap_periods ← quotient (since ts' start) resolution
            max_periods ← quotient (since ts' before) resolution
            if ltb start before || ltb max_periods gap_periods
                then new_value e ts'
                else if ltb start ts'
                then prepend_value e ts' gap_periods max_periods seq
                else do period ← quotient (since start ts') resolution; update_existing e period seq
