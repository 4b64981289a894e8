-- ===== src/Base/Time.antt =====
-- Durations and instants in whole nanoseconds, and the two clocks as calls on the world, so that
-- time may pass between any two readings.
use tapwarden.Base.{ℕ, ◌*◌, ◌/◌}

-- `Duration::from_secs` and `Duration::as_secs`.
abbrev pub from_secs : ℕ → ℕ
from_secs n = n * 1_000_000_000

abbrev pub as_secs : ℕ → ℕ
as_secs d = d / 1_000_000_000

-- `Instant::now` and `SystemTime::now`.
pub record Clock (W : Type 0) : Type 0 where
  pub instant : W → ℕ × W
  pub wall : W → ℕ × W
