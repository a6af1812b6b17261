-- ===== src/Scheduler/Window.antt =====
-- `SessionWindow` and `build_session_window` of domain/scheduler.py.
pub mod Laws
use agentic_investment_os.Prelude.{
  ℕ, ◌-◌, ◌+◌, Bool, ◌&&◌, ◌||◌, not, leb, ltb, if◌then◌else◌, Option, none, some, Result, ok, err,
  invalid_status, ◌>>=◌, ◌>>◌, raise_if,
}
use agentic_investment_os.Temporal.{UtcInstant, minutes}
use agentic_investment_os.Scheduler.Zone.{Zone}
use agentic_investment_os.Scheduler.Policy.{
  MarketSession, is_regular_session, is_exact_integer, is_early_close,
}

pub record SessionWindow : Type 0 where
  pub cycle : MarketSession
  pub opens_at : UtcInstant
  pub closes_at : UtcInstant
  pub scheduled_at : UtcInstant
  pub missed_at : UtcInstant

-- `__post_init__` raises unless this holds.
unfoldable pub window_is_valid : SessionWindow → Bool
window_is_valid w = not (
    leb w.opens_at.value w.scheduled_at.value
    || leb w.closes_at.value w.opens_at.value
    || ltb w.missed_at.value w.scheduled_at.value)

-- `_OPEN_TIME`, `_REGULAR_CLOSE_TIME` and `_EARLY_CLOSE_TIME`, in minutes of the day
abbrev pub open_time : ℕ
open_time = 570

abbrev pub regular_close_time : ℕ
regular_close_time = 960

abbrev pub early_close_time : ℕ
early_close_time = 780

-- The window's instants. The source takes the `timedelta`s off and on in New York's local time. The
-- clocks change on Sundays at 02:00, and the window of a session, which is a weekday, lies after 09:30
-- of the day before and not after 09:30 of the day after, so this is the same in UTC. The openings lie
-- long after year 1, so nothing is cut off at 0.
unfoldable pub session_window : Zone → MarketSession → ℕ → ℕ → SessionWindow
session_window z cycle advance lateness =
    let opening = z.resolve cycle.trading_date open_time in
    let closing =
      z.resolve cycle.trading_date
        (if is_early_close cycle.trading_date then early_close_time else regular_close_time) in
    let scheduled = opening.value - minutes advance in
    record {
      cycle = cycle;
      opens_at = opening;
      closes_at = closing;
      scheduled_at = record { value = scheduled };
      missed_at = record { value = scheduled + minutes lateness };
    }

-- The constructor of the window may raise.
unfoldable pub build_session_window : Zone → MarketSession → ℕ → ℕ → Result (Option SessionWindow)
build_session_window z cycle advance lateness =
    if not (is_regular_session cycle.trading_date)
      || not (is_exact_integer advance 1 1440)
      || not (is_exact_integer lateness 0 1440)
    then ok none
    else do
      let w = session_window z cycle advance lateness
      raise_if (not (window_is_valid w)) invalid_status
      ok (some w)
