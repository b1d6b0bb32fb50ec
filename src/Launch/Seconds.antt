-- ===== src/Launch/Seconds.antt =====
-- `time.Duration(n) * time.Second`: a number of nanoseconds, an int64 that wraps around.
use ttest.Prelude.{ℕ, suc, ◌-◌, ◌*◌, ◌%◌, ◌^◌, ◌≤◌, ◌≡◌, false, arith, ltb, if◌then◌else◌}
use ttest.Prelude.Int.{ℤ, pos, negsuc}
use ttest.Config.Defaults.{not_positive}

-- The int64 of a bit pattern below 2 ^ 64.
abbrev pub int64 : ℕ → ℤ
int64 n = if ltb n (2 ^ 63) then pos n else negsuc (2 ^ 64 - 1 - n)

unfoldable pub seconds : ℤ → ℤ
seconds (pos n) = int64 (n * 1000000000 % 2 ^ 64)
seconds (negsuc n) = int64 ((2 ^ 64 - suc n * 1000000000 % 2 ^ 64) % 2 ^ 64)

-- The largest number of seconds that is a `Duration`.
abbrev pub max_seconds : ℕ
max_seconds = 9223372036

abbrev pub AtMost : ℕ → ℤ → Type 0
AtMost m (pos n) = n ≤ m
AtMost m (negsuc n) = Unit

pub seconds-Positive :
    (x : ℤ) → not_positive x ≡ false → AtMost max_seconds x → not_positive (seconds x) ≡ false
unfolding seconds
seconds-Positive (pos n) h k = ground arith
seconds-Positive (negsuc n) h k = ground arith
