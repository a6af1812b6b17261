-- ===== src/Scheduler/Ledger/Append.antt =====
-- The status of a session in a valid ledger, and the event that `_append_event` adds to it.
use mathlib.Core.Option
use text.Mathlib.TextPositions.{eq_refl}
use agentic_investment_os.Prelude.{
  ℕ, ◌≤◌, ◌≡◌, refl, true, false, not, Option, none, some, String, List, [], ◌∷◌, ◌++◌, get_last?,
  All, All-append, All-last, get_last?-snoc, arith, ok, inl, inr, Bool-cases, ◌∙◌, subst,
}
use agentic_investment_os.Temporal.{UtcInstant}
use agentic_investment_os.Scheduler.Policy.{MarketSession}
use agentic_investment_os.Scheduler.Window.{SessionWindow, session_window, window_is_valid}
use agentic_investment_os.Scheduler.Status.{
  ScheduledSessionStatus, scheduled_session_status, is_open,
}
use agentic_investment_os.Scheduler.Host.{EventKind, Host, HostLaws, same_cycle}
use agentic_investment_os.Scheduler.History.{
  Row, Scan, initial, precedes, check_kind, check_row, check_rows, row_status, status_from_history,
}
use agentic_investment_os.Scheduler.History.Steps.{
  check_row-Behind, check_rows-last, check_rows-snoc, row_status-valid,
}
use agentic_investment_os.Scheduler.Ledger.{
  Database, select_cycle, checks_hold, insert_row, new_row, append_event,
}
use agentic_investment_os.Scheduler.Ledger.Table.{
  IsPresent, key_taken-le, where_cycle-snoc_other, select_cycle-snoc_same, select_cycle-snoc_other,
  All-select_cycle,
}
use agentic_investment_os.Scheduler.Ledger.Valid.{
  IsServed, IsSession, IsValid, policy_window, policy_window-valid, session_of_served,
  next_sequence,
}

-- The status of a session: that of its last event.
unfoldable pub status_of : SessionWindow → List Row → Option ScheduledSessionStatus
status_of w events = Option.map (row_status w) (get_last? (select_cycle w.cycle events))

-- What the scan of a session knows of its status.
pub record Tracks (w : SessionWindow) (scan : Scan) (current : ScheduledSessionStatus)
    : Type 0 where
  pub previous : scan.previous_at ≡ some current.recorded_at
  pub terminal : scan.terminal ≡ not (is_open current.disposition)
  pub attempts : scan.terminal ≡ false → scan.attempts ≡ current.attempts
  pub started : scan.terminal ≡ false → 1 ≤ scan.attempts
  pub since : scan.terminal ≡ false → w.scheduled_at.value ≤ current.recorded_at.value

abbrev pub Tracked : SessionWindow → Scan → Option ScheduledSessionStatus → Type 0
Tracked w scan none = scan ≡ initial
Tracked w scan (some current) = Tracks w scan current

module _ {Receipt : Type 0} (h : Host Receipt) (laws : HostLaws h) where
  rows-Tracked :
      (w : SessionWindow) (rows : List Row) (scan : Scan)
      → window_is_valid w ≡ true
      → All (λ row. checks_hold row ≡ true) rows
      → check_rows h w initial rows ≡ some scan
      → (status_from_history w rows ≡ ok (Option.map (row_status w) (get_last? rows)))
        × Tracked w scan (Option.map (row_status w) (get_last? rows))
  unfolding status_from_history scheduled_session_status check_rows
  rows-Tracked w [] scan v cs e = (refl, ground arith)
  rows-Tracked w (x ∷ rows) scan v cs e =
      let (row, before, last, accepted) = check_rows-last h w initial scan x rows e in
      let behind = check_row-Behind h w before scan row accepted in
      let valid =
        row_status-valid h laws w before scan row v (All-last _ (x ∷ rows) row cs last) accepted in
      rw last (
        rw valid refl,
        unfold row_status in
            record {
              previous = behind.previous;
              terminal = behind.terminal;
              attempts = behind.attempts;
              started = behind.started;
              since = behind.since;
            },
      )

  -- The last status of a session is rebuilt without an error, and its scan agrees with it.
  pub status_from_history-ok :
      (db : Database) (c : MarketSession) (v : IsValid h db) (served : IsServed db.policy c)
      → let w = policy_window h db.policy c in
        (status_from_history w (select_cycle c db.events) ≡ ok (status_of w db.events))
        × Tracked w (session_of_served h db c v served).scan (status_of w db.events)
  unfolding status_of session_window
  status_from_history-ok db c v served =
      rows-Tracked (policy_window h db.policy c) (select_cycle c db.events)
        (session_of_served h db c v served).scan (policy_window-valid h laws db.policy c served)
        (All-select_cycle _ c db.events v.checked) (session_of_served h db c v served).scanned

  module _ (db : Database) (c : MarketSession) (v : IsValid h db)
      (served : IsServed db.policy c) where
    abbrev w : SessionWindow
    w = policy_window h db.policy c

    abbrev scan : Scan
    scan = (session_of_served h db c v served).scan

    module _ (kind : EventKind) (attempt : ℕ) (at : UtcInstant) (text hash : Option String) where
      abbrev row : Row
      row = new_row h w kind attempt at text hash db.events

      new_row-sequence : row.sequence ≡ scan.expected_sequence
      unfolding new_row session_window
      new_row-sequence =
          next_sequence h db.policy db.events c scan (session_of_served h db c v served).scanned

      -- The checks of `_validate_history` that do not depend on the kind pass.
      new_row-checked :
          scan.terminal ≡ false
          → precedes at scan.previous_at ≡ false
          → check_row h w scan row ≡ check_kind h kind w scan row
      unfolding check_row new_row
      new_row-checked open_yet in_order =
          ground (arith, new_row-sequence, eq_refl (h.event_hash row.material))

      insert-new_row :
          checks_hold row ≡ true → insert_row row db.events ≡ ok (db.events ++ row ∷ [])
      unfolding insert_row new_row session_window
      insert-new_row checks = ground (arith, key_taken-le c row.sequence db.events)

      abbrev events' : List Row
      events' = db.events ++ row ∷ []

      select-new_row : select_cycle c events' ≡ select_cycle c db.events ++ row ∷ []
      unfolding new_row session_window
      select-new_row = select_cycle-snoc_same c row db.events refl (omega arith)

      -- The status of the session is then that of the new event.
      pub status_of-new_row : status_of w events' ≡ some (row_status w row)
      unfolding status_of session_window
      status_of-new_row = rw (select-new_row, get_last?-snoc)

      -- The other sessions keep their rows.
      pub select-new_row_other :
          (d : MarketSession)
          → same_cycle c d ≡ false
          → select_cycle d events' ≡ select_cycle d db.events
      unfolding new_row session_window
      select-new_row_other d other = select_cycle-snoc_other d row db.events other

      pub status_of-other :
          (u : SessionWindow)
          → same_cycle c u.cycle ≡ false
          → status_of u events' ≡ status_of u db.events
      unfolding status_of
      status_of-other u other = rw (select-new_row_other u.cycle other)

      IsPresent-other :
          (d : MarketSession) → same_cycle c d ≡ false → IsPresent events' d → IsPresent db.events d
      unfolding new_row session_window
      IsPresent-other d other there e = there (where_cycle-snoc_other d row db.events other ∙ e)

      module _ (checks : checks_hold row ≡ true) (open_yet : scan.terminal ≡ false)
          (in_order : precedes at scan.previous_at ≡ false) (next : Scan)
          (accepted : check_kind h kind w scan row ≡ some next) where
        session-own : IsSession h db.policy events' c
        unfolding session_window
        session-own = record {
          served = served;
          scan = next;
          scanned = rw select-new_row (
              check_rows-snoc h w initial scan (select_cycle c db.events) row
                (session_of_served h db c v served).scanned
              ∙ new_row-checked open_yet in_order
              ∙ accepted);
        }

        session-new_row :
            (d : MarketSession) → IsPresent events' d → IsSession h db.policy events' d
        session-new_row d there = elim (Bool-cases (same_cycle c d)) [
          | inl same ↦
              let own : c ≡ d = ground arith in
              subst (IsSession h db.policy events') own session-own
          | inr other ↦
              let s = v.session d (IsPresent-other d other there) in
              record {
                served = s.served;
                scan = s.scan;
                scanned = rw (select-new_row_other d other) s.scanned;
              }
        ]

        -- The event is added, the status is its own, and the ledger stays valid.
        pub append_event-ok :
            (append_event h w kind attempt at text hash db
              ≡ ok (row_status w row, record db { events = events' }))
            × IsValid h (record db { events = events' })
        unfolding append_event status_from_history scheduled_session_status session_window
        append_event-ok =
            let valid =
              row_status-valid h laws w scan next row
                (policy_window-valid h laws db.policy c served) checks
                (new_row-checked open_yet in_order ∙ accepted) in
            (
              rw (insert-new_row checks, select-new_row, get_last?-snoc, valid) refl,
              record {
                policy_valid = v.policy_valid;
                checked = All-append _ db.events (row ∷ []) v.checked (checks, tt);
                session = session-new_row;
              },
            )
