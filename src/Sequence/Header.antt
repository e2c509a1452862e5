-- ===== src/Sequence/Header.antt =====
-- encoding/seq.go: the eight bytes in front of a sequence.
use zenodb.Prelude.{
  ℕ, ◌+◌, ◌≤◌, ◌≡◌, refl, some, List, ◌++◌, arith, length, take, drop, length-append,
  drop-append_past, take-append_past, sym,
}
use zenodb.Encoding.Binary.{IsInt64}
use zenodb.Encoding.Time.{
  is_nil-header, Time, unix_nano, header, length-header, encode_time-header, time_from_bytes-header,
}
use zenodb.Sequence.{Sequence, until, set_until}

-- A time that eight bytes can hold.
abbrev pub IsStorable : Time → Type 0
IsStorable t = IsInt64 (unix_nano t)

pub until-header : (t : Time) (d : List ℕ) → IsStorable t → until (header t ++ d) ≡ some t
unfolding until
until-header t d h = rw (is_nil-header t d, time_from_bytes-header t d h) refl

pub set_until_lem :
    (seq : Sequence) (t : Time) → 8 ≤ length seq → set_until seq t ≡ some (header t ++ drop 8 seq)
unfolding set_until
set_until_lem seq t h = encode_time-header seq t h

-- What is behind the eight bytes.
pub drop-header : (n : ℕ) (t : Time) (d : List ℕ) → drop (n + 8) (header t ++ d) ≡ drop n d
drop-header n t d =
    let e : n + 8 ≡ 8 + n = omega arith in
    rw e (drop-append_past 8 n (header t) d (sym (length-header t)))

pub take-header :
    (n : ℕ) (t : Time) (d : List ℕ) → take (8 + n) (header t ++ d) ≡ header t ++ take n d
take-header n t d = take-append_past 8 n (header t) d (sym (length-header t))

pub length-header_append : (t : Time) (d : List ℕ) → length (header t ++ d) ≡ 8 + length d
length-header_append t d = omega (arith, length-append (header t) d, length-header t)
