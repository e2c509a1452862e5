-- ===== src/Encoding/Tests.antt =====
-- encoding: tests, and the theorems at concrete bytes and instants.
use zenodb.Prelude.{ℕ, ◌+◌, ◌*◌, ◌≡◌, some, List, arith, replicate, ◌>>=◌}
use zenodb.Encoding.Time.{
  Time, second, encode_time, time_from_bytes, time_from_bytes-encode_time, round_time_up,
  round_time_down, round_lem, IsRounded,
}

abbrev zeros : List ℕ
zeros = replicate 10 0

-- 2015, in nanoseconds since the start of year 1.
abbrev instant : Time
instant = 63555000000 * second + 7

time_from_bytes-encode_time_example : encode_time zeros instant >>= time_from_bytes ≡ some instant
time_from_bytes-encode_time_example =
    time_from_bytes-encode_time zeros instant (omega arith) (omega arith)

round_lem_example :
    ((k : ℕ) × (round_time_up instant second ≡ k * second))
    × ((k : ℕ) × (round_time_down instant second ≡ k * second))
    × IsRounded second instant (round_time_up instant second)
    × IsRounded second (round_time_down instant second) instant
round_lem_example = round_lem instant second (omega arith)
