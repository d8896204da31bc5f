-- ===== src/Server/Timings/Averages.antt =====
-- Source/WisentServer.cpp: the averages of the times.
use wisent.Prelude.{ℕ, ◌+◌, ◌≤◌, ◌<◌, ◌≡◌, true, List, [], ◌∷◌, Bytes, bytes_eq, if◌then◌else◌}
use wisent.Server.Timings.{Timing, Timings, record_time}

-- The timings after a sequence of requests, each with its key and time.
abbrev pub record_times : List (Bytes × ℕ) → Timings → Timings
record_times [] timings = timings
record_times ((key, time) ∷ times) timings = record_times times (record_time key time timings)

-- How many of the requests are for the key.
abbrev pub requests_of : Bytes → List (Bytes × ℕ) → ℕ
requests_of key [] = 0
requests_of key ((k, time) ∷ times) = (if bytes_eq k key then 1 else 0) + requests_of key times

-- The times of the requests for the key are in a range.
abbrev pub Within : (key : Bytes) (low high : ℕ) → List (Bytes × ℕ) → Type 0
Within key low high [] = Unit {0}
Within key low high ((k, time) ∷ times) =
    (bytes_eq k key ≡ true → (low ≤ time) × (time ≤ high)) × Within key low high times

-- The average, if there is one, is in the range.
pub record Averages (low high : ℕ) (t : Timing) : Type 0 where
  pub above : 0 < t.count → low ≤ t.avg
  pub below : 0 < t.count → t.avg ≤ high

module _ (key : Bytes) (low high : ℕ) where
  -- What holds of a timing after `n` requests.
  abbrev After : ℕ → Timing → Type 0
  After n t = Averages low high t × (t.count ≡ n)
