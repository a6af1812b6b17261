-- ===== src/Scheduler/Ledger/Valid.antt =====
-- The invariant of the ledger: every session of the table is supported by the pinned policy, and
-- its events pass `_validate_history`.
use agentic_investment_os.Prelude.{
  ◌+◌, ◌-◌, ◌/◌, ◌≤◌, ◌≡◌, ◌≢◌, refl, true, some, List, [], ◌∷◌, All, arith, ok, ◌⊎◌, inl, inr,
}
use agentic_investment_os.Scheduler.Policy.{MarketSession, SchedulerPolicy, policy_is_valid}
use agentic_investment_os.Scheduler.Window.{SessionWindow, session_window, window_is_valid}
use agentic_investment_os.Scheduler.Window.Laws.{
  IsSupported, is_regular_session_range, session_window-valid, build_session_window-supported,
}
use agentic_investment_os.Scheduler.Host.{Host, HostLaws}
use agentic_investment_os.Scheduler.History.{Row, Scan, initial, check_rows, validate_history}
use agentic_investment_os.Scheduler.History.Steps.{check_rows-sequence}
use agentic_investment_os.Scheduler.Ledger.{
  Database, where_cycle, order_by_sequence, select_cycle, distinct_cycles, max_sequence,
  checks_hold, validate_cycles, load_cycle_validating_all,
}
use agentic_investment_os.Scheduler.Ledger.Table.{
  IsPresent, distinct_cycles-IsPresent, max_sequence-order,
}

List-cases : {A : Type 0} (xs : List A) → (xs ≡ []) ⊎ (xs ≢ [])
List-cases [] = inl refl
List-cases (x ∷ xs) = inr (ground arith)

abbrev pub IsServed : SchedulerPolicy → MarketSession → Type 0
IsServed p c =
    IsSupported c p.advance_minutes_before_open p.maximum_lateness_minutes
    × (p.first_session.trading_date ≤ c.trading_date)

module _ {Receipt : Type 0} (h : Host Receipt) where
  -- The window of a session under the policy.
  abbrev pub policy_window : SchedulerPolicy → MarketSession → SessionWindow
  policy_window p c =
      session_window h.zone c p.advance_minutes_before_open p.maximum_lateness_minutes

  pub record IsSession (p : SchedulerPolicy) (events : List Row) (c : MarketSession) : Type 0 where
    pub served : IsServed p c
    pub scan : Scan
    pub scanned : check_rows h (policy_window p c) initial (select_cycle c events) ≡ some scan

  pub record IsValid (db : Database) : Type 0 where
    pub policy_valid : policy_is_valid db.policy ≡ true
    pub checked : All (λ row. checks_hold row ≡ true) db.events
    pub session : (c : MarketSession) → IsPresent db.events c → IsSession db.policy db.events c

module _ {Receipt : Type 0} (h : Host Receipt) where
  -- A session that is served and has no rows yet is scanned from the start.
  pub session_of_served :
      (db : Database) (c : MarketSession)
      → IsValid h db
      → IsServed db.policy c
      → IsSession h db.policy db.events c
  unfolding select_cycle order_by_sequence check_rows
  session_of_served db c v served = elim (List-cases (where_cycle c db.events)) [
    | inl none_yet ↦ record { served = served; scan = initial; scanned = rw none_yet }
    | inr some_rows ↦ v.session c some_rows
  ]

  -- The next sequence number is the one that the scan expects.
  pub next_sequence :
      (p : SchedulerPolicy) (events : List Row) (c : MarketSession) (scan : Scan)
      → check_rows h (policy_window h p c) initial (select_cycle c events) ≡ some scan
      → max_sequence (where_cycle c events) + 1 ≡ scan.expected_sequence
  unfolding select_cycle
  next_sequence p events c scan e = omega (
    arith,
    max_sequence-order (where_cycle c events),
    check_rows-sequence h (policy_window h p c) initial scan (select_cycle c events) (omega arith)
        e,
  )

module _ {Receipt : Type 0} (h : Host Receipt) (laws : HostLaws h) where
  pub policy_window-valid :
      (p : SchedulerPolicy) (c : MarketSession)
      → IsServed p c
      → window_is_valid (policy_window h p c) ≡ true
  policy_window-valid p c served =
      session_window-valid h.zone laws.zone_laws c p.advance_minutes_before_open
        p.maximum_lateness_minutes served.0

  -- The minutes that `_load_cycle` recovers from a window are those of the policy.
  window_minutes :
      (p : SchedulerPolicy) (c : MarketSession)
      → IsServed p c
      → let w = policy_window h p c in
        ((w.opens_at.value - w.scheduled_at.value) / 60_000_000 ≡ p.advance_minutes_before_open)
        × ((w.missed_at.value - w.scheduled_at.value) / 60_000_000 ≡ p.maximum_lateness_minutes)
  unfolding session_window
  window_minutes p c served =
      let range = is_regular_session_range c.trading_date served.0.regular in
      let late = laws.zone_laws.resolve_late c.trading_date 570 (omega arith) (omega arith) in
      let short = served.0.advance_high in (omega arith, omega arith)

  validate_cycles-ok :
      (db : Database) (c : MarketSession) (cs : List MarketSession)
      → IsValid h db
      → IsServed db.policy c
      → All (IsPresent db.events) cs
      → validate_cycles h (policy_window h db.policy c) db.events cs ≡ ok tt
  unfolding validate_cycles validate_history
  validate_cycles-ok db c [] v served ps = refl
  validate_cycles-ok db c (d ∷ ds) v served ps =
      let s = v.session d ps.0 in
      let found =
        build_session_window-supported h.zone laws.zone_laws d db.policy.advance_minutes_before_open
          db.policy.maximum_lateness_minutes s.served.0 in
      let m = window_minutes db.policy c served in
      rw (m.0, m.1, found, s.scanned) (validate_cycles-ok db c ds v served ps.1)

  -- Loading a session of a valid ledger does not raise.
  pub load_cycle_validating_all-ok :
      (db : Database) (c : MarketSession)
      → IsValid h db
      → IsServed db.policy c
      → load_cycle_validating_all h (policy_window h db.policy c) db.events
        ≡ ok (select_cycle c db.events)
  unfolding load_cycle_validating_all session_window
  load_cycle_validating_all-ok db c v served = ground (
    arith,
    validate_cycles-ok db c (distinct_cycles db.events) v served
        (distinct_cycles-IsPresent db.events),
  )
