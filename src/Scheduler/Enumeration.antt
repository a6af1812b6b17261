-- ===== src/Scheduler/Enumeration.antt =====
-- `session_windows_through` and `next_session_window` of domain/scheduler.py. Each loop runs over
-- the days up to a last one, so it recurs on the number of days left.
pub mod Due
pub mod Listing
pub mod Next
use agentic_investment_os.Prelude.{
  ℕ, zero, suc, ◌+◌, ◌-◌, min, max, Bool, true, false, ◌&&◌, Option, none, some, List, [], ◌∷◌, ltb,
  leb, Result, ok, err, ◌>>=◌, if◌then◌else◌,
}
use agentic_investment_os.Temporal.{UtcInstant}
use agentic_investment_os.Calendar.{Date, date, year}
use agentic_investment_os.Scheduler.Zone.{Zone}
use agentic_investment_os.Scheduler.Policy.{MarketSession, SchedulerPolicy, pinned_year}
use agentic_investment_os.Scheduler.Window.{SessionWindow, build_session_window}

-- `date(_PINNED_YEAR, 12, 31)`
abbrev pub last_day : Date
last_day = date pinned_year 12 31

-- `build_session_window(MarketSession(current), ...)` with the minutes of the policy
unfoldable pub policy_session : Zone → SchedulerPolicy → Date → Result (Option SessionWindow)
policy_session z policy current =
    build_session_window z (record { trading_date = current }) policy.advance_minutes_before_open
      policy.maximum_lateness_minutes

abbrev add_due : UtcInstant → Option SessionWindow → List SessionWindow → List SessionWindow
add_due at none rest = rest
add_due at (some w) rest = if leb w.scheduled_at.value at.value then w ∷ rest else rest

unfoldable pub due_windows :
    Zone → SchedulerPolicy → UtcInstant → ℕ → Date → Result (List SessionWindow)
due_windows z policy at zero current = ok []
due_windows z policy at (suc days) current = do
  window ← policy_session z policy current
  rest ← due_windows z policy at days (current + 1)
  ok (add_due at window rest)

unfoldable pub session_windows_through :
    Zone → SchedulerPolicy → UtcInstant → Result (List SessionWindow)
session_windows_through z policy at =
    let local_date = z.local_date at in
    let last = min local_date last_day in
    let first = policy.first_session.trading_date in
    if ltb (year local_date) pinned_year
    then ok []
    else due_windows z policy at (last + 1 - first) first

abbrev is_after : UtcInstant → Option SessionWindow → Bool
is_after at none = false
is_after at (some w) = ltb at.value w.scheduled_at.value

unfoldable pub next_window :
    Zone → SchedulerPolicy → UtcInstant → ℕ → Date → Result (Option SessionWindow)
next_window z policy at zero current = ok none
next_window z policy at (suc days) current =
    let later = next_window z policy at days (current + 1) in
    do window ← policy_session z policy current; if is_after at window then ok window else later

unfoldable pub next_session_window :
    Zone → SchedulerPolicy → UtcInstant → Result (Option SessionWindow)
next_session_window z policy at =
    let first = max policy.first_session.trading_date (z.local_date at) in
    next_window z policy at (last_day + 1 - first) first
