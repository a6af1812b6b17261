-- ===== src/Scheduler/Operations/Events.antt =====
-- Each kind of event, where the operations append it.
use text.Mathlib.TextPositions.{eq_refl}
use agentic_investment_os.Prelude.{
  ℕ, ◌+◌, ◌≤◌, ◌<◌, ◌≡◌, refl, Bool, true, false, Option, none, some, String, [], ◌∷◌, ◌++◌, arith,
  ok,
}
use agentic_investment_os.Temporal.{UtcInstant}
use agentic_investment_os.Scheduler.Policy.{MarketSession}
use agentic_investment_os.Scheduler.Window.{SessionWindow, session_window}
use agentic_investment_os.Scheduler.Status.{
  ScheduledSessionStatus, is_open, is_hash, has_hash_length,
}
use agentic_investment_os.Scheduler.Host.{EventKind, Host, HostLaws, receipt_matches_session}
use agentic_investment_os.Scheduler.History.{Scan, check_kind, row_status, validate_receipt_text}
use agentic_investment_os.Scheduler.Ledger.{Database, checks_hold, new_row, append_event}
use agentic_investment_os.Scheduler.Ledger.Valid.{
  IsServed, IsValid, policy_window, session_of_served,
}
use agentic_investment_os.Scheduler.Ledger.Append.{
  status_of, Tracks, Tracked, status_from_history-ok, append_event-ok,
}
use agentic_investment_os.Scheduler.Operations.{outcome_kind}

pub is_hash-length : (text : String) → is_hash text ≡ true → has_hash_length text ≡ true
unfolding is_hash
is_hash-length text e = ground arith

module _ {Receipt : Type 0} (h : Host Receipt) where
  -- The database with one more event of a session.
  abbrev pub with_event :
      Database
      → MarketSession
      → EventKind
      → ℕ
      → UtcInstant
      → Option String
      → Option String
      → Database
  with_event db c kind attempt at text hash = record db {
    events =
        db.events
        ++ new_row h (policy_window h db.policy c) kind attempt at text hash db.events ∷ [];
  }

  -- The status that the event gives.
  abbrev pub event_status :
      Database
      → MarketSession
      → EventKind
      → ℕ
      → UtcInstant
      → Option String
      → Option String
      → ScheduledSessionStatus
  event_status db c kind attempt at text hash =
      let w = policy_window h db.policy c in
      row_status w (new_row h w kind attempt at text hash db.events)

  -- `_append_event` succeeds and keeps the ledger valid.
  abbrev pub Appends :
      Database → MarketSession → EventKind → ℕ → UtcInstant → Option String → Option String → Type 0
  Appends db c kind attempt at text hash =
      (append_event h (policy_window h db.policy c) kind attempt at text hash db
        ≡ ok (
          event_status db c kind attempt at text hash,
          with_event db c kind attempt at text hash,
        ))
      × IsValid h (with_event db c kind attempt at text hash)

module _ {Receipt : Type 0} (h : Host Receipt) (laws : HostLaws h) where
  receipt_read :
      (c : MarketSession) (r : Receipt) (failed : Bool)
      → h.receipt_failed r ≡ failed
      → receipt_matches_session h r c ≡ true
      → validate_receipt_text h (some (h.receipt_text r)) (some (h.receipt_hash r)) failed c ≡ true
  unfolding validate_receipt_text
  receipt_read c r true f m =
      rw laws.parse-text (ground (arith, eq_refl (h.receipt_text r), eq_refl (h.receipt_hash r)))
  receipt_read c r false f m =
      rw laws.parse-text (ground (arith, eq_refl (h.receipt_text r), eq_refl (h.receipt_hash r)))

  module _ (db : Database) (c : MarketSession) (v : IsValid h db)
      (served : IsServed db.policy c) where
    abbrev w : SessionWindow
    w = policy_window h db.policy c

    abbrev scan : Scan
    scan = (session_of_served h db c v served).scan

    tracked : {o : Option ScheduledSessionStatus} → status_of w db.events ≡ o → Tracked w scan o
    tracked e = rw e at (status_from_history-ok h laws db c v served).1

    abbrev accepted : Bool → ℕ → UtcInstant → Scan
    accepted terminal attempts at = record {
      expected_sequence = scan.expected_sequence + 1;
      terminal = terminal;
      attempts = attempts;
      previous_at = some at;
    }

    module _ (at : UtcInstant) where
      row_hash :
          (kind : EventKind) (attempt : ℕ) (text hash : Option String)
          → has_hash_length (new_row h w kind attempt at text hash db.events).event_hash ≡ true
      unfolding new_row
      row_hash kind attempt text hash = is_hash-length _ (laws.event_hash-is_hash _)

      -- A session with no event can be recorded as missed, behind its deadline.
      pub missed-Appends :
          status_of w db.events ≡ none
          → w.missed_at.value < at.value
          → Appends h db c EventKind.missed 0 at none none
      unfolding checks_hold check_kind new_row
      missed-Appends e late =
          let fresh = tracked e in
          append_event-ok h laws db c v served EventKind.missed 0 at none none
            (ground (arith, row_hash EventKind.missed 0 none none)) (ground arith) (ground arith)
            (accepted true 0 at) (ground arith)

      -- A session with no event can be started within its window.
      pub started-Appends :
          status_of w db.events ≡ none
          → w.scheduled_at.value ≤ at.value
          → at.value ≤ w.missed_at.value
          → Appends h db c EventKind.started 1 at none none
      unfolding checks_hold check_kind new_row
      started-Appends e due in_time =
          let fresh = tracked e in
          append_event-ok h laws db c v served EventKind.started 1 at none none
            (ground (arith, row_hash EventKind.started 1 none none)) (ground arith) (ground arith)
            (accepted false 1 at) (ground arith)

      module _ (current : ScheduledSessionStatus) (e : status_of w db.events ≡ some current)
          (open_yet : is_open current.disposition ≡ true)
          (in_order : current.recorded_at.value ≤ at.value) where
        -- An open session can be resumed.
        pub resumed-Appends : Appends h db c EventKind.resumed (current.attempts + 1) at none none
        unfolding checks_hold check_kind new_row
        resumed-Appends =
            let t : Tracks w scan current = tracked e in
            append_event-ok h laws db c v served EventKind.resumed (current.attempts + 1) at none
              none (ground (arith, row_hash EventKind.resumed (current.attempts + 1) none none))
              (ground arith) (ground arith) (accepted false (current.attempts + 1) at)
              (ground arith)

        outcome_accepted :
            (r : Receipt) (failed : Bool)
            → h.receipt_failed r ≡ failed
            → receipt_matches_session h r c ≡ true
            → check_kind h (outcome_kind h failed) w scan (
                new_row h w
                  (outcome_kind h failed)
                  current.attempts
                  at
                  (some (h.receipt_text r))
                  (some (h.receipt_hash r))
                  db.events)
              ≡ some (accepted true scan.attempts at)
        unfolding check_kind new_row session_window
        outcome_accepted r true f m =
            let t : Tracks w scan current = tracked e in ground (arith, receipt_read c r true f m)
        outcome_accepted r false f m =
            let t : Tracks w scan current = tracked e in ground (arith, receipt_read c r false f m)

        outcome_checks :
            (r : Receipt) (failed : Bool)
            → checks_hold (
                new_row h w
                  (outcome_kind h failed)
                  current.attempts
                  at
                  (some (h.receipt_text r))
                  (some (h.receipt_hash r))
                  db.events)
              ≡ true
        unfolding checks_hold new_row
        outcome_checks r true =
            let t : Tracks w scan current = tracked e in
            ground (
              arith,
              is_hash-length _ (laws.receipt_hash-is_hash r),
              row_hash EventKind.refused current.attempts (some (h.receipt_text r))
                  (some (h.receipt_hash r)),
            )
        outcome_checks r false =
            let t : Tracks w scan current = tracked e in
            ground (
              arith,
              is_hash-length _ (laws.receipt_hash-is_hash r),
              row_hash EventKind.completed current.attempts (some (h.receipt_text r))
                  (some (h.receipt_hash r)),
            )

        -- An open session can be ended by a receipt of its cycle.
        pub outcome-Appends :
            (r : Receipt)
            → receipt_matches_session h r c ≡ true
            → Appends h db c
                (outcome_kind h (h.receipt_failed r))
                current.attempts
                at
                (some (h.receipt_text r))
                (some (h.receipt_hash r))
        outcome-Appends r matches =
            let t : Tracks w scan current = tracked e in
            append_event-ok h laws db c v served (outcome_kind h (h.receipt_failed r))
              current.attempts at (some (h.receipt_text r)) (some (h.receipt_hash r))
              (outcome_checks r (h.receipt_failed r)) (ground arith) (ground arith)
              (accepted true scan.attempts at)
              (outcome_accepted r (h.receipt_failed r) refl matches)
