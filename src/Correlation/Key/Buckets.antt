-- ===== src/Correlation/Key/Buckets.antt =====
-- The time buckets of `_compute_time_bucket`.
use prefeitura_anti_hack.Prelude.{ℕ, suc, ◌+◌, ◌*◌, ◌/◌, ◌≤◌, ◌<◌, ◌≡◌, arith}
use prefeitura_anti_hack.Prelude.Int.{pos, negsuc, ◌<ℤ◌}
use prefeitura_anti_hack.Correlation.Key.{bucket_start}

-- From the epoch on, with a positive window: the bucket starts at a multiple of the window, and
-- holds the second in which the event occurred.
pub bucket_start-holds :
    (micros window : ℕ)
    → 0 < window
    → (s : ℕ) × (bucket_start (pos micros) window ≡ pos (s * window))
      × (s * window * 1000000 ≤ micros)
      × (micros < (s * window + window) * 1000000)
unfolding bucket_start
bucket_start-holds micros window h =
    let sec = micros / 1000000 in
    let s = sec / window in (s, ground arith, grind arith, grind arith)

cut_to_epoch : (k window : ℕ) → suc k < 1000000 → bucket_start (negsuc k) window ≡ pos 0
unfolding bucket_start
cut_to_epoch k window h =
    let e : suc k / 1000000 ≡ 0 = omega arith in
    let f : 0 / window ≡ 0 = grind arith in rw (e, f) (ground arith)

-- Every instant less than a second before the epoch is put in the bucket that starts at the epoch,
-- so in a window in which it did not occur: `int` cuts towards zero.
pub bucket_start_before_epoch :
    (k window : ℕ)
    → suc k < 1000000
    → (bucket_start (negsuc k) window ≡ pos 0) × (negsuc k <ℤ bucket_start (negsuc k) window)
bucket_start_before_epoch k window h = let e = cut_to_epoch k window h in (e, rw e (omega arith))
