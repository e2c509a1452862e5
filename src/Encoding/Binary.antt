-- ===== src/Encoding/Binary.antt =====
-- encoding/encoding.go: big-endian integers at the front of a byte slice. A write returns the whole
-- slice and what the source returns, the part behind what was written. A slice that is too short
-- makes Go panic: that is `none`.
use mathlib.Core.Option
use zenodb.Prelude.Int.{ℤ, pos, negsuc}
use zenodb.Prelude.{
  ltb, ℕ, ◌+◌, ◌-◌, ◌*◌, ◌/◌, ◌%◌, ◌^◌, ◌<◌, ◌≤◌, ◌≡◌, refl, ap, sym, ◌∙◌, Option, none, some, List,
  [], ◌∷◌, ◌++◌, arith, if◌then◌else◌, leb, length, take, drop, length-append, take-append_left,
  drop-append_left,
}

-- `PutUint16`, `PutUint32` and `PutUint64` of `binary.BigEndian`, on the value as a bit pattern.
unfoldable pub put_uint16 : ℕ → List ℕ
put_uint16 v = (v / 2 ^ 8 % 256) ∷ (v % 256) ∷ []

unfoldable pub put_uint32 : ℕ → List ℕ
put_uint32 v = (v / 2 ^ 24 % 256) ∷ (v / 2 ^ 16 % 256) ∷ (v / 2 ^ 8 % 256) ∷ (v % 256) ∷ []

unfoldable pub put_uint64 : ℕ → List ℕ
put_uint64 v =
    (v / 2 ^ 56 % 256)
    ∷ (v / 2 ^ 48 % 256)
    ∷ (v / 2 ^ 40 % 256)
    ∷ (v / 2 ^ 32 % 256)
    ∷ (v / 2 ^ 24 % 256)
    ∷ (v / 2 ^ 16 % 256)
    ∷ (v / 2 ^ 8 % 256)
    ∷ (v % 256)
    ∷ []

-- `Uint16`, `Uint32` and `Uint64`.
unfoldable pub uint16 : List ℕ → Option ℕ
uint16 (a ∷ b ∷ r) = some (a * 2 ^ 8 + b)
uint16 _ = none

unfoldable pub uint32 : List ℕ → Option ℕ
uint32 (a ∷ b ∷ c ∷ d ∷ r) = some (a * 2 ^ 24 + b * 2 ^ 16 + c * 2 ^ 8 + d)
uint32 _ = none

unfoldable pub uint64 : List ℕ → Option ℕ
uint64 (a ∷ b ∷ c ∷ d ∷ e ∷ f ∷ g ∷ h ∷ r) =
    some
      (a * 2 ^ 56 + b * 2 ^ 48 + c * 2 ^ 40 + d * 2 ^ 32 + e * 2 ^ 24 + f * 2 ^ 16 + g * 2 ^ 8 + h)
uint64 _ = none

pub uint16-put :
    (v : ℕ) (r : List ℕ)
    → v < 2 ^ 16
    → (uint16 (put_uint16 v ++ r) ≡ some v) × (drop 2 (put_uint16 v ++ r) ≡ r)
unfolding uint16 put_uint16
uint16-put v r h = (ap some (omega arith), refl)

pub uint32-put :
    (v : ℕ) (r : List ℕ)
    → v < 2 ^ 32
    → (uint32 (put_uint32 v ++ r) ≡ some v) × (drop 4 (put_uint32 v ++ r) ≡ r)
unfolding uint32 put_uint32
uint32-put v r h = (ap some (omega arith), refl)

pub uint64-put :
    (v : ℕ) (r : List ℕ)
    → v < 2 ^ 64
    → (uint64 (put_uint64 v ++ r) ≡ some v) × (drop 8 (put_uint64 v ++ r) ≡ r)
unfolding uint64 put_uint64
uint64-put v r h = (ap some (omega arith), refl)

pub length-put_uint64 : (w : ℕ) → length (put_uint64 w) ≡ 8
unfolding put_uint64
length-put_uint64 w = refl

pub length-put_uint32 : (w : ℕ) → length (put_uint32 w) ≡ 4
unfolding put_uint32
length-put_uint32 w = refl

pub length-put_uint16 : (w : ℕ) → length (put_uint16 w) ≡ 2
unfolding put_uint16
length-put_uint16 w = refl

-- A Go int as the unsigned word of the given modulus that the conversion keeps of it, and back.
unfoldable pub to_word : ℕ → ℤ → ℕ
to_word modulus (pos n) = n % modulus
to_word modulus (negsuc n) = modulus - 1 - n % modulus

unfoldable pub to_int64 : ℕ → ℤ
to_int64 u = if ltb u (2 ^ 63) then pos u else negsuc (2 ^ 64 - 1 - u)

-- The range of Go's int and int64.
abbrev pub IsInt64 : ℤ → Type 0
IsInt64 (pos n) = n < 2 ^ 63
IsInt64 (negsuc n) = n < 2 ^ 63

-- Overwriting the front of a slice: the slice after it, and the part behind what was written.
pub overwrite : List ℕ → List ℕ → Option (List ℕ × List ℕ)
overwrite front b =
    let rest = drop (length front) b in
    if leb (length front) (length b) then some (front ++ rest, rest) else none

-- `WriteInt16`, `WriteInt32` and `WriteInt64`.
pub write_int16 : List ℕ → ℤ → Option (List ℕ × List ℕ)
write_int16 b i = overwrite (put_uint16 (to_word (2 ^ 16) i)) b

pub write_int32 : List ℕ → ℤ → Option (List ℕ × List ℕ)
write_int32 b i = overwrite (put_uint32 (to_word (2 ^ 32) i)) b

pub write_int64 : List ℕ → ℤ → Option (List ℕ × List ℕ)
write_int64 b i = overwrite (put_uint64 (to_word (2 ^ 64) i)) b

-- `ReadInt16`, `ReadInt32` and `ReadInt64`: the integer and the part behind it.
pub read_int16 : List ℕ → Option (ℤ × List ℕ)
read_int16 b = Option.map (λ u. (pos u, drop 2 b)) (uint16 b)

pub read_int32 : List ℕ → Option (ℤ × List ℕ)
read_int32 b = Option.map (λ u. (pos u, drop 4 b)) (uint32 b)

pub read_int64 : List ℕ → Option (ℤ × List ℕ)
read_int64 b = Option.map (λ u. (to_int64 u, drop 8 b)) (uint64 b)

-- `Read`, and with it `ReadByteMap` and `ReadSequence`.
pub read : List ℕ → ℕ → Option (List ℕ × List ℕ)
read b l = if leb l (length b) then some (take l b, drop l b) else none

-- `Write`: `copy` writes as much as fits, and the slice expression wants all of it to fit.
pub write : List ℕ → List ℕ → Option (List ℕ × List ℕ)
write b d = overwrite d b

pub overwrite_lem :
    (front b : List ℕ)
    → length front ≤ length b
    → overwrite front b ≡ some (front ++ drop (length front) b, drop (length front) b)
unfolding overwrite
overwrite_lem front b h = ground arith

pub to_word_lt : (m : ℕ) (i : ℤ) → 0 < m → to_word m i < m
unfolding to_word
to_word_lt m (pos n) h = grind arith
to_word_lt m (negsuc n) h = grind arith

pub to_int64-to_word : (i : ℤ) → IsInt64 i → to_int64 (to_word (2 ^ 64) i) ≡ i
unfolding to_word to_int64
to_int64-to_word (pos n) h = ground arith
to_int64-to_word (negsuc n) h = ground arith

-- A read of what a write that fits has left at the front.
through :
    {X : Type 0} (front b : List ℕ) (n : ℕ) (reader : List ℕ → Option X) (x : Option X)
    → length front ≡ n
    → n ≤ length b
    → reader (front ++ drop n b) ≡ x
    → Option.bind (overwrite front b) (λ w. reader w.0) ≡ x
unfolding Option.bind
through front b n reader x e h p = rw (overwrite_lem front b (rw e h)) (rw e p)

pub read_int64-put :
    (i : ℤ) (r : List ℕ)
    → IsInt64 i
    → read_int64 (put_uint64 (to_word (2 ^ 64) i) ++ r) ≡ some (i, r)
unfolding read_int64
read_int64-put i r h =
    let (p, q) = uint64-put (to_word (2 ^ 64) i) r (to_word_lt (2 ^ 64) i (omega arith)) in
    rw (p, q) (ap (λ j. some (j, r)) (to_int64-to_word i h))

pub read_int64-put_pos :
    (n : ℕ) (r : List ℕ) → n < 2 ^ 63 → read_int64 (put_uint64 n ++ r) ≡ some (pos n, r)
unfolding to_word
read_int64-put_pos n r h =
    let e : n % 2 ^ 64 ≡ n = omega arith in
    ap (λ m. read_int64 (put_uint64 m ++ r)) (sym e) ∙ read_int64-put (pos n) r h

pub read_int32-put :
    (v : ℕ) (r : List ℕ) → v < 2 ^ 32 → read_int32 (put_uint32 v ++ r) ≡ some (pos v, r)
unfolding read_int32
read_int32-put v r h = let (p, q) = uint32-put v r h in rw (p, q)

pub read_int16-put :
    (v : ℕ) (r : List ℕ) → v < 2 ^ 16 → read_int16 (put_uint16 v ++ r) ≡ some (pos v, r)
unfolding read_int16
read_int16-put v r h = let (p, q) = uint16-put v r h in rw (p, q)

-- In a buffer of 8 bytes or more, an int that `WriteInt64` writes is read by `ReadInt64`; `WriteInt32`
-- with `ReadInt32`, and `WriteInt16` with `ReadInt16`, give it modulo 2 ^ 32 and 2 ^ 16. Each read leaves
-- what is behind the integer.
pub read-write_int :
    (b : List ℕ) (i : ℤ)
    → IsInt64 i
    → 8 ≤ length b
    → (Option.bind (write_int64 b i) (λ w. read_int64 w.0) ≡ some (i, drop 8 b))
      × (Option.bind (write_int32 b i) (λ w. read_int32 w.0)
          ≡ some (pos (to_word (2 ^ 32) i), drop 4 b))
      × (Option.bind (write_int16 b i) (λ w. read_int16 w.0)
          ≡ some (pos (to_word (2 ^ 16) i), drop 2 b))
unfolding write_int64 write_int32 write_int16
read-write_int b i r h = (
  through (put_uint64 w64) b 8 read_int64 _ (unfold put_uint64 in refl) h
      (read_int64-put i (drop 8 b) r),
  through (put_uint32 w32) b 4 read_int32 _ (unfold put_uint32 in refl) (omega arith)
      (read_int32-put w32 (drop 4 b) (to_word_lt (2 ^ 32) i (omega arith))),
  through (put_uint16 w16) b 2 read_int16 _ (unfold put_uint16 in refl) (omega arith)
      (read_int16-put w16 (drop 2 b) (to_word_lt (2 ^ 16) i (omega arith))),
)
  where
    w64 : ℕ
    w64 = to_word (2 ^ 64) i

    w32 : ℕ
    w32 = to_word (2 ^ 32) i

    w16 : ℕ
    w16 = to_word (2 ^ 16) i

pub read-append : (d r : List ℕ) → read (d ++ r) (length d) ≡ some (d, r)
unfolding read
read-append d r = ground (arith, length-append d r, take-append_left d r, drop-append_left d r)

pub read-append_of : (d r : List ℕ) (n : ℕ) → length d ≡ n → read (d ++ r) n ≡ some (d, r)
read-append_of d r n e = ap (read (d ++ r)) (sym e) ∙ read-append d r

-- Bytes that fit and that `Write` writes are read by `Read` of their number, which leaves what is behind
-- them.
pub read-write :
    (b d : List ℕ)
    → length d ≤ length b
    → Option.bind (write b d) (λ w. read w.0 (length d)) ≡ some (d, drop (length d) b)
unfolding write
read-write b d h =
    through d b (length d) (λ w. read w (length d)) _ refl h (read-append d (drop (length d) b))

pub uint64_total : (b : List ℕ) → 8 ≤ length b → (u : ℕ) × (uint64 b ≡ some u)
unfolding uint64
uint64_total (i ∷ j ∷ k ∷ l ∷ m ∷ n ∷ o ∷ p ∷ r) h = (
  i * 2 ^ 56 + j * 2 ^ 48 + k * 2 ^ 40 + l * 2 ^ 32 + m * 2 ^ 24 + n * 2 ^ 16 + o * 2 ^ 8 + p,
  refl,
)
uint64_total _ h = absurd (omega arith)
