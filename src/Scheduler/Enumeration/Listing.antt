-- ===== src/Scheduler/Enumeration/Listing.antt =====
-- `session_windows_through` of domain/scheduler.py, against the instants that windows are scheduled at.
use agentic_investment_os.Prelude.{
  ◌+◌, ◌-◌, ◌≤◌, ◌<◌, ◌≡◌, ◌↔◌, true, List, ok, arith, IsIn, subst, Bool-cases, inl, inr, leb,
}
use agentic_investment_os.Temporal.{UtcInstant}
use agentic_investment_os.Scheduler.Zone.{Zone, ZoneLaws}
use agentic_investment_os.Scheduler.Policy.{SchedulerPolicy, policy_is_valid, is_regular_session}
use agentic_investment_os.Scheduler.Window.{SessionWindow}
use agentic_investment_os.Scheduler.Window.Laws.{is_regular_session_range}
use agentic_investment_os.Scheduler.Enumeration.{session_windows_through}
use agentic_investment_os.Scheduler.Enumeration.Due.{IsDue, window_on, session_windows_through-lem}

module _ (z : Zone) (p : SchedulerPolicy) (laws : ZoneLaws z) (valid : policy_is_valid p ≡ true)
    (at : UtcInstant) (ws : List SessionWindow) (listing : session_windows_through z p at ≡ ok ws)
    (w : SessionWindow) where
  -- A window is listed exactly when it is the window of a regular session, no earlier than the
  -- policy's first, that is scheduled no later than `at`, and its date is not after the local date.
  pub listed-iff-IsDue :
      IsIn w ws ↔ IsDue z p at p.first_session.trading_date (z.local_date at + 1) w
  listed-iff-IsDue =
      let (ws', found, listed) = session_windows_through-lem z p laws valid at in
      let same : ws' ≡ ws = ground arith in
      subst (λ l. IsIn w l ↔ IsDue z p at p.first_session.trading_date (z.local_date at + 1) w) same
        (listed w)

  -- A window of a served session that is scheduled on its own trading date is listed from its
  -- scheduled instant on, and not before.
  pub listed-iff-scheduled :
      is_regular_session w.cycle.trading_date ≡ true
      → p.first_session.trading_date ≤ w.cycle.trading_date
      → w ≡ window_on z p w.cycle.trading_date
      → z.local_date w.scheduled_at ≡ w.cycle.trading_date
      → IsIn w ws ↔ (w.scheduled_at.value ≤ at.value)
  listed-iff-scheduled regular active own on_date = (
    λ i. (listed-iff-IsDue.0 i).scheduled,
    λ due.
        let follows = laws.local_date_mono w.scheduled_at at due in
        listed-iff-IsDue.1 (record {
          from = active;
          before = omega arith;
          regular = regular;
          own = own;
          scheduled = due;
        }),
  )

  -- A window whose deadline passes on the day before its trading date has been missed by the time
  -- that it is listed.
  pub listed_too_late :
      IsIn w ws
      → w.missed_at.value ≤ (z.resolve (w.cycle.trading_date - 1) 1439).value
      → w.missed_at.value < at.value
  listed_too_late i early =
      let due = listed-iff-IsDue.0 i in
      let range = is_regular_session_range w.cycle.trading_date due.regular in
      let before = due.before in
      let eve = z.resolve (w.cycle.trading_date - 1) 1439 in
      let dated =
        laws.local_date-resolve (w.cycle.trading_date - 1) 1439 (omega arith) (omega arith)
          (omega arith) in
      elim (Bool-cases (leb at.value eve.value)) [
        | inl still_eve ↦
            let follows = laws.local_date_mono at eve (ground arith) in absurd (omega arith)
        | inr later ↦ ground arith
      ]
