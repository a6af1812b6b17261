-- ===== src/Scheduler/Operations/Snapshots.antt =====
-- `snapshot` on a valid ledger.
use agentic_investment_os.Prelude.{
  ◌≡◌, refl, sym, map, IsIn, All-tabulate, ◌∙◌, ap, some, List, [], ◌∷◌, All, get_last?,
  get_last?-none, ok, arith, Option-cases, inl, inr,
}
use agentic_investment_os.Scheduler.Policy.{MarketSession, SchedulerPolicy}
use agentic_investment_os.Scheduler.Window.{session_window}
use agentic_investment_os.Scheduler.Window.Laws.{build_session_window-supported}
use agentic_investment_os.Scheduler.Status.{ScheduledSessionStatus, SchedulerSnapshot}
use agentic_investment_os.Scheduler.Host.{Host, HostLaws}
use agentic_investment_os.Scheduler.History.{Row, row_status, validate_history}
use agentic_investment_os.Scheduler.Ledger.{Database, select_cycle, distinct_cycles, load_cycle}
use agentic_investment_os.Scheduler.Ledger.Table.{
  IsPresent, select_cycle-nonempty, distinct_cycles-IsPresent,
}
use agentic_investment_os.Scheduler.Ledger.Cycles.{
  IsAscending, distinct_cycles-IsAscending, distinct_cycles-IsIn, IsPresent-row,
}
use agentic_investment_os.Scheduler.Ledger.Valid.{IsValid, policy_window}
use agentic_investment_os.Scheduler.Ledger.Append.{status_of, status_from_history-ok}
use agentic_investment_os.Scheduler.Operations.{snapshot, snapshot_sessions}
use agentic_investment_os.Scheduler.Operations.Verdict.{policy_eq_refl}

module _ {Receipt : Type 0} (h : Host Receipt) where
  -- One status for each session of the list, in its order: that of the session's last event.
  abbrev Statuses :
      SchedulerPolicy → List Row → List MarketSession → List ScheduledSessionStatus → Type 0
  Statuses p events [] [] = Unit
  Statuses p events [] (s ∷ ss) = ⊥
  Statuses p events (c ∷ cs) [] = ⊥
  Statuses p events (c ∷ cs) (s ∷ ss) =
      (status_of (policy_window h p c) events ≡ some s) × Statuses p events cs ss

  -- What a snapshot of a ledger reports: with strictly ascending dates, each session of an event, with
  -- the status of its last event, and no other session.
  pub record IsReport (db : Database) (reported : List ScheduledSessionStatus) : Type 0 where
    pub ascending : IsAscending (map (λ (s : ScheduledSessionStatus). s.cycle) reported)
    pub complete :
        All
          (λ (row : Row).
            (s : ScheduledSessionStatus) × IsIn s reported
            × (s.cycle ≡ row.cycle)
            × (status_of (policy_window h db.policy row.cycle) db.events ≡ some s))
          db.events
    pub sound :
        All
          (λ (s : ScheduledSessionStatus).
            (row : Row) × IsIn row db.events
            × (s.cycle ≡ row.cycle)
            × (status_of (policy_window h db.policy row.cycle) db.events ≡ some s))
          reported

  module _ (laws : HostLaws h) (db : Database) (v : IsValid h db) where
    load_cycle-ok :
        (c : MarketSession)
        → IsPresent db.events c
        → load_cycle h (policy_window h db.policy c) db.events ≡ ok (select_cycle c db.events)
    unfolding load_cycle validate_history session_window
    load_cycle-ok c there = let s = v.session c there in rw s.scanned refl

    has_status :
        (c : MarketSession)
        → IsPresent db.events c
        → (s : ScheduledSessionStatus) × (status_of (policy_window h db.policy c) db.events
            ≡ some s)
    unfolding status_of session_window
    has_status c there = elim (Option-cases (get_last? (select_cycle c db.events))) [
      | inl empty ↦ absurd (
          select_cycle-nonempty c db.events there (get_last?-none (select_cycle c db.events) empty))
      | inr (row, last) ↦ (row_status (policy_window h db.policy c) row, rw last)
    ]

    snapshot_sessions-ok :
        (cs : List MarketSession)
        → All (IsPresent db.events) cs
        → (ss : List ScheduledSessionStatus) × (snapshot_sessions h db.policy db.events cs ≡ ok ss)
          × Statuses db.policy db.events cs ss
    unfolding snapshot_sessions
    snapshot_sessions-ok [] ps = ([], refl, tt)
    snapshot_sessions-ok (c ∷ cs) ps =
        let served = (v.session c ps.0).served in
        let (s, last) = has_status c ps.0 in
        let (ss, rest, all) = snapshot_sessions-ok cs ps.1 in
        let built =
          build_session_window-supported h.zone laws.zone_laws c
            db.policy.advance_minutes_before_open db.policy.maximum_lateness_minutes served.0 in
        let found = (status_from_history-ok h laws db c v served).0 ∙ ap ok last in
        let active = served.1 in
        (s ∷ ss, rw built (ground (arith, load_cycle-ok c ps.0, found, rest)), (last, all))

    status_of-cycle :
        (c : MarketSession) (s : ScheduledSessionStatus)
        → status_of (policy_window h db.policy c) db.events ≡ some s
        → s.cycle ≡ c
    unfolding status_of row_status session_window
    status_of-cycle c s e = elim (Option-cases (get_last? (select_cycle c db.events))) [
      | inl empty ↦ absurd (ground (arith, e, empty))
      | inr (row, last) ↦
          let same : row_status (policy_window h db.policy c) row ≡ s = ground (arith, e, last) in
          rw (← same) refl
    ]

    Statuses-cycles :
        (cs : List MarketSession) (ss : List ScheduledSessionStatus)
        → Statuses db.policy db.events cs ss
        → map (λ (s : ScheduledSessionStatus). s.cycle) ss ≡ cs
    Statuses-cycles [] [] all = refl
    Statuses-cycles [] (s ∷ ss) all = elim all [ ]
    Statuses-cycles (c ∷ cs) [] all = elim all [ ]
    Statuses-cycles (c ∷ cs) (s ∷ ss) all =
        rw (status_of-cycle c s all.0, Statuses-cycles cs ss all.1) refl

    Statuses-reports :
        (cs : List MarketSession) (ss : List ScheduledSessionStatus) (c : MarketSession)
        → Statuses db.policy db.events cs ss
        → IsIn c cs
        → (s : ScheduledSessionStatus) × IsIn s ss
          × (status_of (policy_window h db.policy c) db.events ≡ some s)
    Statuses-reports [] ss c all i = elim i [ ]
    Statuses-reports (d ∷ cs) [] c all i = elim all [ ]
    Statuses-reports (d ∷ cs) (s ∷ ss) c all (inl here) = (s, inl refl, rw here all.0)
    Statuses-reports (d ∷ cs) (s ∷ ss) c all (inr later) =
        let (t, j, found) = Statuses-reports cs ss c all.1 later in (t, inr j, found)

    Statuses-reported :
        (cs : List MarketSession) (ss : List ScheduledSessionStatus) (s : ScheduledSessionStatus)
        → All (IsPresent db.events) cs
        → Statuses db.policy db.events cs ss
        → IsIn s ss
        → (c : MarketSession) × IsPresent db.events c
          × (status_of (policy_window h db.policy c) db.events ≡ some s)
    Statuses-reported [] [] s ps all i = elim i [ ]
    Statuses-reported [] (t ∷ ss) s ps all i = elim all [ ]
    Statuses-reported (c ∷ cs) [] s ps all i = elim i [ ]
    Statuses-reported (c ∷ cs) (t ∷ ss) s ps all (inl here) = (c, ps.0, rw here all.0)
    Statuses-reported (c ∷ cs) (t ∷ ss) s ps all (inr later) =
        Statuses-reported cs ss s ps.1 all.1 later

    -- A snapshot of a valid ledger under its policy does not raise. It reports the session of each
    -- event of the ledger, with the status of the session's last event, and no other session, and the
    -- dates of the sessions ascend strictly.
    pub snapshot-IsReport :
        (snap : SchedulerSnapshot) × (snapshot h db.policy db ≡ ok snap) × IsReport db snap.sessions
    unfolding snapshot
    snapshot-IsReport =
        let cs = distinct_cycles db.events in
        let present = distinct_cycles-IsPresent db.events in
        let (ss, loaded, all) = snapshot_sessions-ok cs present in
        (
          record { policy = db.policy; sessions = ss },
          rw (policy_eq_refl db.policy, loaded) refl,
          record {
            ascending = rw (Statuses-cycles cs ss all) (distinct_cycles-IsAscending db.events);
            complete = All-tabulate _ db.events (λ row i.
                let (s, j, found) =
                  Statuses-reports cs ss row.cycle all (distinct_cycles-IsIn db.events row i) in
                (s, j, status_of-cycle row.cycle s found, found));
            sound = All-tabulate _ ss (λ s i.
                let (c, there, found) = Statuses-reported cs ss s present all i in
                let (row, j, own) = IsPresent-row c db.events there in
                (row, j, status_of-cycle c s found ∙ sym own, rw own found));
          },
        )
