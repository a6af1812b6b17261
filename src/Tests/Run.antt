-- ===== src/Tests/Run.antt =====
-- A run of the scheduler on one Monday morning, and the listings of that morning.
use agentic_investment_os.Prelude.{
  ℕ, ◌+◌, ◌≤◌, ◌≡◌, ◌↔◌, refl, true, Option, some, [], ◌∷◌, String, ok, arith, IsIn, length, inl,
  max,
}
use agentic_investment_os.Temporal.{UtcInstant}
use agentic_investment_os.Calendar.{date}
use agentic_investment_os.Scheduler.Policy.{
  SchedulerPolicy, is_regular_session, is_early_close, policy_is_valid,
}
use agentic_investment_os.Scheduler.Window.{
  SessionWindow, session_window, build_session_window, window_is_valid,
}
use agentic_investment_os.Scheduler.Enumeration.{
  session_windows_through, next_session_window, last_day, policy_session, due_windows,
}
use agentic_investment_os.Scheduler.Enumeration.Due.{IsDue, window_on}
use agentic_investment_os.Scheduler.Enumeration.Listing.{listed-iff-IsDue, listed-iff-scheduled}
use agentic_investment_os.Scheduler.Enumeration.Next.{
  IsFirstAfter, next_session_window-IsFirstAfter,
}
use agentic_investment_os.Scheduler.Ledger.{Database}
use agentic_investment_os.Scheduler.Status.{
  SchedulerClaim, SchedulerClaimDisposition, ScheduledRunDisposition,
}
use agentic_investment_os.Scheduler.Operations.{claim}
use agentic_investment_os.Scheduler.Operations.Missed.{claim_too_late}
use agentic_investment_os.Scheduler.Operations.Reachable.{new_database-IsValid}
use agentic_investment_os.Scheduler.Run.{Outside, World}
use agentic_investment_os.Scheduler.Run.Loop.{run_due}
use agentic_investment_os.Scheduler.Run.Sound.{IsSound}
use agentic_investment_os.Scheduler.Run.Safety.{run_due_safe}
use agentic_investment_os.Scheduler.Run.Bounded.{run_due-bounded}
use agentic_investment_os.Tests.NewYork.{new_york, new_york-ZoneLaws, instant_of}
use agentic_investment_os.Tests.Fixture.{monday, host, host-HostLaws, policy, policy-valid}
use agentic_investment_os.Tests.Ledger.{ledger, ledger-IsValid, window, at_start}

-- The state is the clock's reading, one microsecond later at each; every advance answers "done".
abbrev outside : Outside String ℕ
outside = record {
  now = λ t. (record { value = t }, t + 1);
  advance = λ p c t. (some "done", t);
  lifecycle_status = λ t. (some (some monday), t);
}

abbrev morning : World ℕ
morning = record { ledger = ledger; outside = at_start.value; advanced = [] }

run_due_safe_example : IsSound host policy ledger (run_due host outside policy morning).1
run_due_safe_example =
    run_due_safe host host-HostLaws outside policy policy-valid ledger morning refl ledger-IsValid
      refl refl

run_due-bounded_example : length (run_due host outside policy morning).1.advanced ≤ 3
run_due-bounded_example = run_due-bounded host outside policy morning

listed_now : session_windows_through new_york policy at_start ≡ ok (window ∷ [])
unfolding session_windows_through is_regular_session session_window is_early_close policy_session
    due_windows build_session_window window_is_valid
listed_now = refl

listed-iff-IsDue_example :
    IsIn window (window ∷ [])
    ↔ IsDue new_york policy at_start monday.trading_date (new_york.local_date at_start + 1) window
listed-iff-IsDue_example =
    listed-iff-IsDue new_york policy new_york-ZoneLaws policy-valid at_start (window ∷ [])
      listed_now window

listed-iff-scheduled_example :
    IsIn window (window ∷ []) ↔ (window.scheduled_at.value ≤ at_start.value)
unfolding is_regular_session session_window is_early_close
listed-iff-scheduled_example =
    listed-iff-scheduled new_york policy new_york-ZoneLaws policy-valid at_start (window ∷ [])
      listed_now window refl (omega arith) refl refl

-- A session may begin a day before it opens, and no later than ten minutes after that.
abbrev eager : SchedulerPolicy
eager = record policy { advance_minutes_before_open = 1440 }

eager-valid : policy_is_valid eager ≡ true
unfolding policy_is_valid is_regular_session
eager-valid = refl

abbrev past_midnight : UtcInstant
past_midnight = instant_of (date 2026 3 9) 30

abbrev eager_window : SessionWindow
eager_window = window_on new_york eager monday.trading_date

listed_past_midnight : session_windows_through new_york eager past_midnight ≡ ok (eager_window ∷ [])
unfolding session_windows_through is_regular_session session_window is_early_close policy_session
    due_windows build_session_window window_is_valid
listed_past_midnight = refl

abbrev eager_ledger : Database
eager_ledger = record { policy = eager; events = [] }

claim_too_late_example :
    (cl again : SchedulerClaim) × (after : Database) × (claim host eager eager_window past_midnight
        eager_ledger
      ≡ ok (cl, after))
    × (cl.disposition ≡ SchedulerClaimDisposition.missed)
    × (cl.status.disposition ≡ ScheduledRunDisposition.missed)
    × (claim host after.policy eager_window past_midnight after ≡ ok (again, after))
    × (again.disposition ≡ SchedulerClaimDisposition.terminal)
unfolding session_window is_early_close
claim_too_late_example =
    claim_too_late host host-HostLaws eager_ledger (new_database-IsValid host eager eager-valid)
      past_midnight past_midnight (eager_window ∷ []) eager_window listed_past_midnight (inl refl)
      (omega arith) tt (omega arith)

next_session_window-IsFirstAfter_example :
    (o : Option SessionWindow) × (next_session_window new_york policy at_start ≡ ok o)
    × IsFirstAfter new_york policy at_start
        (max monday.trading_date (new_york.local_date at_start))
        (last_day + 1)
        o
next_session_window-IsFirstAfter_example =
    next_session_window-IsFirstAfter new_york policy at_start new_york-ZoneLaws policy-valid
