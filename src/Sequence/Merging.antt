-- ===== src/Sequence/Merging.antt =====
-- encoding/seq.go: the merge of two sequences, period by period.
pub mod Windows
pub mod Extent
use zenodb.Prelude.{
  ℕ, zero, suc, ◌+◌, ◌-◌, ◌*◌, ◌/◌, ◌%◌, ◌^◌, ◌≡◌, refl, Bool, true, false, Option, none, some,
  List, [], ◌∷◌, ◌++◌, ◌==◌, leb, ltb, min, if◌then◌else◌, length, take, drop, replicate, is_nil,
  ◌>>=◌, ◌&&◌,
}
use zenodb.Prelude.Int.{ℤ, pos, negsuc, pos_part, sub_ℕ, ◌-ℤ◌}
use zenodb.Encoding.Binary.{to_word, to_int64}
use zenodb.Encoding.Duration.{since, ahead_of, add_back}
use zenodb.Encoding.Time.{Time}
use zenodb.Encoding.Until.{Quotients, round_time_until_up}
use zenodb.Expr.{Outside, Expr, encoded_width}
use zenodb.Expr.Merge.{merge}
use zenodb.Sequence.{Sequence, until, num_periods}

-- What a step of `Merge` has written into the front of `sout`, and the bytes that are left of `sout`, `sa`
-- and `sb`.
pub record Window : Type 0 where
  pub written : List ℕ
  pub rest : List ℕ
  pub left_a : List ℕ
  pub left_b : List ℕ

-- `copy(sout, sa[:l])`, and all three after it.
pub lead_window : ℕ → List ℕ → List ℕ → List ℕ → Option Window
lead_window l sout sa sb =
    if leb l (length sa) && leb l (length sout)
    then some (record { written = take l sa; rest = drop l sout; left_a = drop l sa; left_b = sb })
    else none

-- `sout = sout[gap:]`, which leaves what stands there.
pub gap_window : ℕ → List ℕ → List ℕ → List ℕ → Option Window
gap_window gap sout sa sb =
    if leb gap (length sout)
    then some (record { written = take gap sout; rest = drop gap sout; left_a = sa; left_b = sb })
    else none

-- `copy(sout, src)`: `sout` after it.
pub tail_window : List ℕ → List ℕ → List ℕ
tail_window sout src = let n = min (length sout) (length src) in take n src ++ drop n sout

-- `int(a.Sub(b) / resolution)`.
pub periods_between : Time → Time → ℕ → Option ℤ
periods_between a b resolution =
    if resolution == 0
    then none
    else some
        (if leb b a then pos (since a b / resolution) else sub_ℕ 0 (ahead_of a b / resolution))

-- The bytes of so many periods, a product of ints, as an offset into a slice or the length of one of
-- eight bytes more: where that is no int from zero on, Go panics.
pub as_size : ℤ → Option ℕ
as_size (pos n) = if ltb (8 + n) (2 ^ 63) then some n else none
as_size (negsuc n) = none

pub slice_size : ℤ → ℕ → Option ℕ
unfolding as_size
slice_size (pos n) width = as_size (to_int64 (n * width % 2 ^ 64))
slice_size (negsuc n) width = as_size (to_int64 (to_word (2 ^ 64) (sub_ℕ 0 (suc n * width))))

-- `l`, where the leading periods are more than none.
pub lead_size : ℤ → ℕ → Option ℕ
unfolding slice_size
lead_size (pos n) width = slice_size (pos n) width
lead_size (negsuc n) width = some 0

module _ (x : Outside) where
  -- The loop over the periods that overlap.
  pub overlap_window : Expr x → ℕ → List ℕ → List ℕ → List ℕ → Option Window
  overlap_window e zero sout sa sb =
      some (record { written = []; rest = sout; left_a = sa; left_b = sb })
  overlap_window e (suc n) sout sa sb = do
    m ← merge x e sout sa sb
    o ← overlap_window e n m.remain m.remain_x m.remain_y
    some (record o { written = m.written ++ o.written })

  -- The middle: the overlap, or the gap, or neither.
  pub middle_window : Expr x → ℕ → Time → Time → Time → Time → ℤ → Window → Option Window
  unfolding overlap_window gap_window periods_between slice_size
  middle_window e resolution start_a end_a start_b end_b lead s =
      if ltb end_a start_b
      then (periods_between start_a (if ltb end_a end_b then end_b else end_a) resolution >>= λ n.
          overlap_window e (pos_part (n -ℤ lead)) s.rest s.left_a s.left_b)
      else if ltb start_b end_a
      then (periods_between end_a start_b resolution >>= λ n.
          slice_size n (encoded_width x e) >>= λ gap. gap_window gap s.rest s.left_a s.left_b)
      else some (record s { written = [] })

  -- `Merge` where `sa` is the one that ends later, and neither is cut.
  pub merge_windows : Expr x → ℕ → Time → Sequence → Time → Sequence → Option Sequence
  unfolding lead_window middle_window tail_window periods_between slice_size lead_size
  merge_windows e resolution start_a sa start_b sb = do
    let width = encoded_width x e
    a_periods ← num_periods width sa
    b_periods ← num_periods width sb
    let end_a = add_back start_a (a_periods * resolution)
    let end_b = add_back start_b (b_periods * resolution)
    total ← periods_between start_a (if ltb end_a end_b then end_a else end_b) resolution
    size ← slice_size total width
    lead ← periods_between start_a (if ltb start_b end_a then end_a else start_b) resolution
    l ← lead_size lead width
    s ← lead_window l (replicate size 0) (drop 8 sa) (drop 8 sb)
    o ← middle_window e resolution start_a end_a start_b end_b lead s
    let tail =
        if ltb end_a end_b
        then tail_window o.rest o.left_a
        else if ltb end_b end_a
        then tail_window o.rest o.left_b
        else o.rest
    some (take 8 sa ++ (s.written ++ (o.written ++ tail)))

  -- `Merge`.
  unfoldable pub merge_sequences :
      Quotients → Expr x → ℕ → Time → Sequence → Sequence → Option Sequence
  unfolding merge_windows
  merge_sequences q e resolution truncate_before seq other =
      if is_nil seq then some other else if is_nil other then some seq else do
        t ← until seq
        u ← until other
        let switch = ltb t u
        let start_a = if switch then u else t
        let start_b = if switch then t else u
        let sa = if switch then other else seq
        let sb = if switch then seq else other
        if ltb start_b (round_time_until_up q truncate_before resolution start_a)
            then some sa
            else merge_windows e resolution start_a sa start_b sb
