-- ===== src/Base/Int.antt =====
-- Signed durations over the native numbers.
use Prim.Native.Nat.{ℕ, ◌-◌, ◌^◌, min}
use baseline_integrity.Base.Conditional.{leb, if◌then◌else◌}

-- `negsuc n` is -(n + 1).
pub data ℤ : Type 0 where
  pos : ℕ → ℤ
  negsuc : ℕ → ℤ

-- The largest `time.Duration`.
abbrev pub max_duration : ℕ
max_duration = 2 ^ 63 - 1

-- `t.Sub(u)` in nanoseconds, which saturates at the ends of `int64`.
unfoldable pub time_sub : ℕ → ℕ → ℤ
time_sub t u =
    if leb u t then pos (min (t - u) max_duration) else negsuc (min (u - t - 1) max_duration)
