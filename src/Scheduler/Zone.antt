-- ===== src/Scheduler/Zone.antt =====
-- `ZoneInfo("America/New_York")`, whose rules are data of the host: local dates of instants, and
-- the instants of local wall-clock times.
use agentic_investment_os.Prelude.{ℕ, ◌≤◌, ◌<◌, ◌≡◌}
use agentic_investment_os.Temporal.{UtcInstant, minutes}
use agentic_investment_os.Calendar.{Date}

pub record Zone : Type 0 where
  -- `instant.value.astimezone(zone).date()`
  pub local_date : UtcInstant → Date
  -- `UtcInstant.from_datetime(datetime.combine(date, time, zone))`, the time in minutes
  pub resolve : Date → ℕ → UtcInstant

-- What is relied on: local dates follow the instants; in the hours in question local times are
-- unambiguous, keep their order, and lie well after year 1.
pub record ZoneLaws (z : Zone) : Type 0 where
  pub local_date_mono : (s t : UtcInstant) → s.value ≤ t.value → z.local_date s ≤ z.local_date t
  pub local_date-resolve :
      (d : Date) (m : ℕ) → 1 ≤ d → 540 ≤ m → m < 1440 → z.local_date (z.resolve d m) ≡ d
  pub resolve_mono :
      (d : Date) (m n : ℕ)
      → 1 ≤ d
      → 540 ≤ m
      → m < n
      → n < 1440
      → (z.resolve d m).value < (z.resolve d n).value
  pub resolve_late : (d : Date) (m : ℕ) → 2 ≤ d → 540 ≤ m → minutes 1440 ≤ (z.resolve d m).value
