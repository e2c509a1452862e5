-- ===== src/Sequence/Truncation.antt =====
-- encoding/seq.go: what `Truncate` leaves of a sequence.
use zenodb.Prelude.{ℕ, ◌^◌, ◌≤◌, ◌<◌, ◌≡◌, ◌==◌, if◌then◌else◌, ◌⊎◌}
use zenodb.Encoding.Time.{Time}
use zenodb.Encoding.Until.{Quotients, AreNear, periods_to}

module _ (q : Quotients) (width resolution : ℕ) (w : 0 < width) (r : 0 < resolution)
    (s : resolution < 2 ^ 53) where
  -- A bound of a truncation: none, or a time after the first resolution, at most 2 ^ 53 nanoseconds from
  -- the end of the sequence.
  abbrev pub IsBound : Time → Time → Type 0
  IsBound old ts = (ts ≡ 0) ⊎ ((resolution ≤ ts) × AreNear q ts old)

  abbrev skipped : Time → Time → ℕ
  skipped old to = if to == 0 then 0 else periods_to q to resolution old
