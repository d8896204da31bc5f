-- ===== src/Server/Timings.antt =====
-- Source/WisentServer.cpp: `averageTimings`, how often a data set was loaded and how long that took on
-- average, in nanoseconds. The products stay below 2^63 for any time that a server runs; times are
-- not negative.
use wisent.Prelude.{
  ℕ, suc, ◌+◌, ◌*◌, ◌/◌, Option, none, some, List, [], ◌∷◌, Bytes, bytes_eq, if◌then◌else◌,
}
pub mod Averages

pub record Timing : Type 0 where
  pub count : ℕ
  pub avg : ℕ

abbrev pub no_timing : Timing
no_timing = record { count = 0; avg = 0 }

-- `total = avg * count; count++; avg = (total + timeDiff) / count`.
unfoldable pub add_time : Timing → (time_diff : ℕ) → Timing
add_time t time_diff = record {
  count = suc t.count;
  avg = (t.avg * t.count + time_diff) / suc t.count;
}

-- The map, by the name and path of the data set.
abbrev pub Timings : Type 0
Timings = List (Bytes × Timing)

-- `try_emplace(key, 0, 0).first->second`, updated.
unfoldable pub record_time : (key : Bytes) (time_diff : ℕ) → Timings → Timings
unfolding add_time
record_time key time_diff [] = (key, add_time no_timing time_diff) ∷ []
record_time key time_diff ((k, t) ∷ timings) =
    let rest = record_time key time_diff timings in
    if bytes_eq k key then (k, add_time t time_diff) ∷ timings else (k, t) ∷ rest

unfoldable pub timing_of : (key : Bytes) → Timings → Timing
timing_of key [] = no_timing
timing_of key ((k, t) ∷ timings) =
    let rest = timing_of key timings in if bytes_eq k key then t else rest
