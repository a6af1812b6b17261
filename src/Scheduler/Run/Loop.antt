-- ===== src/Scheduler/Run/Loop.antt =====
-- `Scheduler._run_due` and `Scheduler.status` of application/scheduler.py. The lock that
-- `exclusive_run` holds around a run is left out.
use agentic_investment_os.Prelude.{
  ℕ, ◌+◌, Bool, true, false, ◌&&◌, not, Option, none, some, List, [], ◌∷◌, ltb, leb, is_none,
  Result, ok, err, calendar_unavailable, clock_rollback, advance_result_invalid,
  status_result_invalid, if◌then◌else◌,
}
use agentic_investment_os.Temporal.{UtcInstant}
use agentic_investment_os.Scheduler.Policy.{MarketSession, SchedulerPolicy, calendar_supports}
use agentic_investment_os.Scheduler.Window.{SessionWindow}
use agentic_investment_os.Scheduler.Status.{
  ScheduledSessionStatus, SchedulerClaim, SchedulerClaimDisposition, SchedulerSnapshot,
  SchedulerReceipt, SchedulerStatus,
}
use agentic_investment_os.Scheduler.Host.{Host, same_cycle, receipt_matches_session}
use agentic_investment_os.Scheduler.Operations.{claim, record_outcome, snapshot}
use agentic_investment_os.Scheduler.Run.{
  Outside, Run, ◌>>=◌, ◌>>◌, pure, lift, transact, raise_if, get, put, put_all, sort_windows,
  is_rolled_back, is_open_status,
}
use agentic_investment_os.Scheduler.Run.Due.{due_session_windows, pending, next_pending_window}

abbrev pub is_empty : List SessionWindow → Bool
is_empty [] = true
is_empty (w ∷ ws) = false

module _ {Receipt S : Type 0} (h : Host Receipt) (o : Outside Receipt S)
    (policy : SchedulerPolicy) where
  -- `_now`; the clock gives a normalized instant.
  unfoldable pub now : Run S UtcInstant
  now s = let (at, outside) = o.now s.outside in (ok at, record s { outside = outside })

  -- `self.advance(...)` with the identity of the policy and the session
  unfoldable pub advance : MarketSession → Run S (Option Receipt)
  advance c s =
      let (receipt, outside) = o.advance policy c s.outside in
      (ok receipt, record s { outside = outside; advanced = (c, s.ledger) ∷ s.advanced })

  unfoldable pub lifecycle_status : Run S (Option (Option MarketSession))
  lifecycle_status s =
      let (status, outside) = o.lifecycle_status s.outside in
      (ok status, record s { outside = outside })

  unfoldable pub take_snapshot : Run S SchedulerSnapshot
  take_snapshot s = (snapshot h policy s.ledger, s)

  unfoldable pub require_calendar : UtcInstant → Run S (Unit {0})
  require_calendar at = raise_if (not (calendar_supports h.zone at)) calendar_unavailable

  abbrev pins : Option MarketSession → MarketSession → Bool
  pins none c = false
  pins (some d) c = same_cycle d c

  -- The checks between the two calls and the outcome
  unfoldable pub checked_receipt :
      MarketSession → Option Receipt → Option (Option MarketSession) → Result Receipt
  checked_receipt c none status = err advance_result_invalid
  checked_receipt c (some receipt) none = err status_result_invalid
  checked_receipt c (some receipt) (some pinned) =
      if not (h.receipt_failed receipt) && not (pins pinned c)
      then err status_result_invalid
      else if not (receipt_matches_session h receipt c)
      then err advance_result_invalid
      else ok receipt

  abbrev present : Option Receipt → Run S (Unit {0})
  present receipt = raise_if (is_none receipt) advance_result_invalid

  -- The work on a session that the claim hands over
  unfoldable pub perform_owned : SessionWindow → SchedulerClaim → Run S ScheduledSessionStatus
  unfolding advance lifecycle_status now
  perform_owned w cl = do
    receipt ← advance w.cycle
    present receipt
    status ← lifecycle_status
    checked ← lift (checked_receipt w.cycle receipt status)
    at ← now
    transact (record_outcome h policy cl checked at)

  abbrev Rest : Type 0
  Rest = List ScheduledSessionStatus → ℕ → Run S (Unit {0})

  -- After a claim: `break`, `continue` or the lifecycle call. `rest` is the remaining loop.
  unfoldable pub after_claim :
      SchedulerClaimDisposition
      → SessionWindow
      → SchedulerClaim
      → Rest
      → List ScheduledSessionStatus
      → ℕ
      → Run S (Unit {0})
  unfolding perform_owned
  after_claim SchedulerClaimDisposition.wait w cl rest completed actions = pure tt
  after_claim SchedulerClaimDisposition.terminal w cl rest completed actions =
      rest (put cl.status completed) actions
  after_claim SchedulerClaimDisposition.missed w cl rest completed actions =
      rest (put cl.status completed) actions
  after_claim SchedulerClaimDisposition.start w cl rest completed actions =
      perform_owned w cl >>= λ s. rest (put s completed) actions
  after_claim SchedulerClaimDisposition.resume w cl rest completed actions =
      perform_owned w cl >>= λ s. rest (put s completed) actions

  unfoldable pub claim_window :
      UtcInstant → SessionWindow → List ScheduledSessionStatus → Run S SchedulerClaim
  unfolding now require_calendar
  claim_window observed_at w completed = do
    claim_at ← now
    raise_if (is_rolled_back claim_at completed) clock_rollback
    raise_if (ltb claim_at.value observed_at.value) clock_rollback
    raise_if
        (is_none (get w.cycle completed)
          && leb claim_at.value w.missed_at.value
          && not (calendar_supports h.zone claim_at))
        calendar_unavailable
    transact (claim h policy w claim_at)

  -- One round of the loop
  unfoldable pub visit :
      UtcInstant → SessionWindow → Rest → List ScheduledSessionStatus → ℕ → Run S (Unit {0})
  unfolding after_claim claim_window
  visit observed_at w rest completed actions =
      if not (is_none (get w.cycle completed)) && not (is_open_status (get w.cycle completed))
      then rest completed actions
      else if leb policy.maximum_actions_per_run actions
      then pure tt
      else claim_window observed_at w completed >>= λ cl.
          after_claim cl.disposition w cl rest completed (actions + 1)

  unfoldable pub run_windows :
      UtcInstant → List SessionWindow → List ScheduledSessionStatus → ℕ → Run S (Unit {0})
  run_windows observed_at [] = λ completed actions. pure tt
  run_windows observed_at (w ∷ ws) = visit observed_at w (run_windows observed_at ws)

  -- The snapshot that ends a run, and the report
  unfoldable pub report : Run S SchedulerReceipt
  unfolding take_snapshot now require_calendar
  report = do
    after ← take_snapshot
    recorded_at ← now
    raise_if (is_rolled_back recorded_at after.sessions) clock_rollback
    require_calendar recorded_at
    next ← lift (next_pending_window h.zone policy recorded_at after.sessions)
    coming ← lift (pending next recorded_at)
    pure (record {
      policy = policy;
      recorded_at = recorded_at;
      sessions = after.sessions;
      pending = coming;
    })

  unfoldable pub run_due : Run S SchedulerReceipt
  unfolding now take_snapshot require_calendar run_windows visit report
  run_due = do
    observed_at ← now
    before ← take_snapshot
    raise_if (is_rolled_back observed_at before.sessions) clock_rollback
    due ← lift (due_session_windows h.zone policy observed_at before.sessions)
    raise_if (is_empty due && not (calendar_supports h.zone observed_at)) calendar_unavailable
    let completed = put_all [] before.sessions
    run_windows observed_at (sort_windows observed_at completed due) completed 0
    report

  -- `Scheduler.status`
  unfoldable pub status : Run S SchedulerStatus
  unfolding now take_snapshot
  status = do
    recorded_at ← now
    seen ← take_snapshot
    raise_if (is_rolled_back recorded_at seen.sessions) clock_rollback
    next ← lift (next_pending_window h.zone policy recorded_at seen.sessions)
    coming ← lift (pending next recorded_at)
    pure (record { policy = seen.policy; sessions = seen.sessions; pending = coming })
