-- ===== src/Temporal.antt =====
-- domain/temporal.py: instants in UTC at microsecond precision. An instant counts the
-- microseconds since 0001-01-01T00:00:00Z. A `datetime` is always aware and normalized here, so
-- the constructor's checks have nothing to refuse.
use agentic_investment_os.Prelude.{ℕ, ◌*◌}

pub record UtcInstant : Type 0 where
  pub value : ℕ

abbrev pub microseconds_per_second : ℕ
microseconds_per_second = 1_000_000

-- `timedelta(minutes=n)`
abbrev pub minutes : ℕ → ℕ
minutes n = n * 60_000_000
