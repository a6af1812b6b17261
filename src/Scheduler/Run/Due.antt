-- ===== src/Scheduler/Run/Due.antt =====
-- `_due_session_windows`, `_pending` and `_next_pending_window` of application/scheduler.py.
use agentic_investment_os.Prelude.{
  Bool, ◌&&◌, ◌||◌, not, Option, none, some, List, [], ◌∷◌, ltb, is_none, Result, ok, err,
  calendar_unavailable, ◌>>=◌, if◌then◌else◌,
}
use agentic_investment_os.Temporal.{UtcInstant}
use agentic_investment_os.Scheduler.Zone.{Zone}
use agentic_investment_os.Scheduler.Policy.{SchedulerPolicy, calendar_supports}
use agentic_investment_os.Scheduler.Window.{SessionWindow, build_session_window}
use agentic_investment_os.Scheduler.Status.{
  ScheduledRunDisposition, ScheduledSessionStatus, is_open, scheduled_session_status,
}
use agentic_investment_os.Scheduler.Enumeration.{session_windows_through, next_session_window}
use agentic_investment_os.Scheduler.Run.{get, put_window}

-- The windows that may be acted on, outside the pinned year only the overdue ones
unfoldable pub put_current :
    Bool → UtcInstant → List SessionWindow → List SessionWindow → List SessionWindow
put_current current_calendar at windows [] = windows
put_current current_calendar at windows (w ∷ ws) =
    put_current current_calendar at
      (if current_calendar || ltb w.missed_at.value at.value then put_window w windows else windows)
      ws

-- The window of an open session; a session that is closed has none.
abbrev pub open_window :
    Zone → SchedulerPolicy → ScheduledSessionStatus → Result (Option SessionWindow)
open_window z policy s = if not (is_open s.disposition) then ok none else do
  window ←
      build_session_window z s.cycle policy.advance_minutes_before_open
        policy.maximum_lateness_minutes
  if is_none window then err calendar_unavailable else ok window

abbrev pub put_found : Option SessionWindow → List SessionWindow → List SessionWindow
put_found none windows = windows
put_found (some w) windows = put_window w windows

unfoldable pub put_open :
    Zone
    → SchedulerPolicy
    → List SessionWindow
    → List ScheduledSessionStatus
    → Result (List SessionWindow)
put_open z policy windows [] = ok windows
put_open z policy windows (s ∷ ss) = do
  found ← open_window z policy s
  put_open z policy (put_found found windows) ss

unfoldable pub due_session_windows :
    Zone → SchedulerPolicy → UtcInstant → List ScheduledSessionStatus → Result (List SessionWindow)
due_session_windows z policy observed_at sessions = do
  through ← session_windows_through z policy observed_at
  put_open z policy (put_current (calendar_supports z observed_at) observed_at [] through) sessions

unfoldable pub pending : Option SessionWindow → UtcInstant → Result (Option ScheduledSessionStatus)
pending none recorded_at = ok none
pending (some w) recorded_at = do
  s ← scheduled_session_status (record {
    cycle = w.cycle;
    scheduled_at = w.scheduled_at;
    missed_at = w.missed_at;
    disposition = ScheduledRunDisposition.pending;
    attempts = 0;
    recorded_at = recorded_at;
    lifecycle_receipt_hash = none;
  })
  ok (some s)

-- The first window that no session has observed
unfoldable pub first_unobserved :
    Bool → UtcInstant → List ScheduledSessionStatus → List SessionWindow → Option SessionWindow
first_unobserved current_calendar at sessions [] = none
first_unobserved current_calendar at sessions (w ∷ ws) =
    if is_none (get w.cycle sessions) && (current_calendar || ltb w.missed_at.value at.value)
    then some w
    else first_unobserved current_calendar at sessions ws

abbrev or_else : Option SessionWindow → Option SessionWindow → Option SessionWindow
or_else (some w) other = some w
or_else none other = other

unfoldable pub next_pending_window :
    Zone
    → SchedulerPolicy
    → UtcInstant
    → List ScheduledSessionStatus
    → Result (Option SessionWindow)
next_pending_window z policy recorded_at sessions = do
  next ← next_session_window z policy recorded_at
  through ← session_windows_through z policy recorded_at
  ok (
      or_else (first_unobserved (calendar_supports z recorded_at) recorded_at sessions through)
        next)
