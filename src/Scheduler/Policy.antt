-- ===== src/Scheduler/Policy.antt =====
-- `SchedulerPolicy` of domain/scheduler.py, and the pinned 2026 calendar.
use agentic_investment_os.Prelude.{ℕ, Bool, false, ◌&&◌, ◌||◌, not, List, [], ◌∷◌, ◌==◌, leb, ltb}
use agentic_investment_os.Temporal.{UtcInstant}
use agentic_investment_os.Calendar.{Date, date, year, weekday}
use agentic_investment_os.Scheduler.Zone.{Zone}

-- domain/identity.py: one US-equity decision cycle, named by its NYSE trading date.
pub record MarketSession : Type 0 where
  pub trading_date : Date

abbrev pub pinned_year : ℕ
pinned_year = 2026

abbrev holidays : List Date
holidays =
    date 2026 1 1
    ∷ date 2026 1 19
    ∷ date 2026 2 16
    ∷ date 2026 4 3
    ∷ date 2026 5 25
    ∷ date 2026 6 19
    ∷ date 2026 7 3
    ∷ date 2026 9 7
    ∷ date 2026 11 26
    ∷ date 2026 12 25
    ∷ []

abbrev early_closes : List Date
early_closes = date 2026 11 27 ∷ date 2026 12 24 ∷ []

abbrev contains : Date → List Date → Bool
contains d [] = false
contains d (x ∷ xs) = d == x || contains d xs

unfoldable pub is_early_close : Date → Bool
is_early_close d = contains d early_closes

unfoldable pub is_regular_session : Date → Bool
unfolding year weekday
is_regular_session value =
    year value == pinned_year && ltb (weekday value) 5 && not (contains value holidays)

-- `_is_exact_integer` of an `int`
abbrev pub is_exact_integer : ℕ → ℕ → ℕ → Bool
is_exact_integer value minimum maximum = leb minimum value && leb value maximum

unfoldable pub calendar_supports : Zone → UtcInstant → Bool
calendar_supports z recorded_at = year (z.local_date recorded_at) == pinned_year

pub record SchedulerPolicy : Type 0 where
  pub first_session : MarketSession
  pub advance_minutes_before_open : ℕ
  pub maximum_lateness_minutes : ℕ
  pub recovery_delay_seconds : ℕ
  pub maximum_actions_per_run : ℕ

-- `__post_init__` raises unless this holds.
unfoldable pub policy_is_valid : SchedulerPolicy → Bool
policy_is_valid p =
    is_regular_session p.first_session.trading_date
    && is_exact_integer p.advance_minutes_before_open 1 1440
    && is_exact_integer p.maximum_lateness_minutes 0 1440
    && is_exact_integer p.recovery_delay_seconds 1 86400
    && is_exact_integer p.maximum_actions_per_run 1 252

-- Equality of the policies' canonical payloads, which list the five fields.
unfoldable pub policy_eq : SchedulerPolicy → SchedulerPolicy → Bool
policy_eq p q =
    p.first_session.trading_date == q.first_session.trading_date
    && p.advance_minutes_before_open == q.advance_minutes_before_open
    && p.maximum_lateness_minutes == q.maximum_lateness_minutes
    && p.recovery_delay_seconds == q.recovery_delay_seconds
    && p.maximum_actions_per_run == q.maximum_actions_per_run
