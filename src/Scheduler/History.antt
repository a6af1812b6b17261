-- ===== src/Scheduler/History.antt =====
-- `_validate_history`, `_validate_receipt_text` and `_status_from_history` of
-- adapters/sqlite_scheduler.py: the events of one session, in the order of their sequence.
pub mod Steps
use agentic_investment_os.Prelude.{
  ℕ, ◌+◌, Bool, true, false, ◌&&◌, ◌||◌, not, Option, none, some, List, [], ◌∷◌, String, str_eq,
  ltb, ◌==◌, is_none, get_last?, if◌then◌else◌, Result, ok, err, ◌>>=◌,
}
use agentic_investment_os.Temporal.{UtcInstant}
use agentic_investment_os.Scheduler.Policy.{MarketSession}
use agentic_investment_os.Scheduler.Window.{SessionWindow}
use agentic_investment_os.Scheduler.Status.{
  ScheduledRunDisposition, ScheduledSessionStatus, scheduled_session_status,
}
use agentic_investment_os.Scheduler.Host.{
  EventKind, Material, Host, same_cycle, receipt_matches_session,
}

-- A row of `scheduler_events`. Columns hold values, not the texts that stand for them.
pub record Row : Type 0 where
  pub material : Material
  pub open material use *
  pub event_hash : String

-- What the loop carries from row to row.
pub record Scan : Type 0 where
  pub expected_sequence : ℕ
  pub terminal : Bool
  pub attempts : ℕ
  pub previous_at : Option UtcInstant

abbrev pub initial : Scan
initial = record { expected_sequence = 1; terminal = false; attempts = 0; previous_at = none }

abbrev pub precedes : UtcInstant → Option UtcInstant → Bool
precedes t none = false
precedes t (some previous) = ltb t.value previous.value

abbrev same_text : Option String → String → Bool
same_text none t = false
same_text (some s) t = str_eq s t

abbrev same_truth : Bool → Bool → Bool
same_truth true b = b
same_truth false b = not b

module _ {Receipt : Type 0} (h : Host Receipt) where
  -- `text` and `expected_hash` are the two receipt columns.
  abbrev parsed_ok : Option Receipt → String → Option String → Bool → MarketSession → Bool
  parsed_ok none text expected_hash refused cycle = false
  parsed_ok (some r) text expected_hash refused cycle =
      str_eq (h.receipt_text r) text
      && same_text expected_hash (h.receipt_hash r)
      && same_truth (h.receipt_failed r) refused
      && receipt_matches_session h r cycle

  -- A text that is missing is refused too.
  unfoldable pub validate_receipt_text : Option String → Option String → Bool → MarketSession → Bool
  validate_receipt_text none expected_hash refused cycle = false
  validate_receipt_text (some text) expected_hash refused cycle =
      parsed_ok (h.receipt_parse text) text expected_hash refused cycle

  -- The scan after a row that is accepted.
  abbrev accept : Scan → Row → Bool → ℕ → Option Scan
  accept s row terminal attempts = some (record {
    expected_sequence = s.expected_sequence + 1;
    terminal = terminal;
    attempts = attempts;
    previous_at = some row.recorded_at;
  })

  -- The branch for `completed` and `refused`
  abbrev check_outcome : Bool → SessionWindow → Scan → Row → Option Scan
  check_outcome refused w s row =
      if s.attempts == 0
        || not (row.attempt == s.attempts)
        || not
            (validate_receipt_text row.lifecycle_receipt row.lifecycle_receipt_hash refused w.cycle)
      then none
      else accept s row true s.attempts

  unfoldable pub check_kind : EventKind → SessionWindow → Scan → Row → Option Scan
  check_kind EventKind.started w s row =
      if not (s.expected_sequence == 1)
        || not (row.attempt == 1)
        || ltb row.recorded_at.value w.scheduled_at.value
        || ltb w.missed_at.value row.recorded_at.value
      then none
      else accept s row false 1
  check_kind EventKind.resumed w s row =
      if s.attempts == 0
        || not (row.attempt == s.attempts + 1)
        || ltb row.recorded_at.value w.scheduled_at.value
      then none
      else accept s row false row.attempt
  check_kind EventKind.completed w s row = check_outcome false w s row
  check_kind EventKind.refused w s row = check_outcome true w s row
  check_kind EventKind.missed w s row =
      if not (s.expected_sequence == 1)
        || not (row.attempt == 0)
        || not (ltb w.missed_at.value row.recorded_at.value)
      then none
      else accept s row true s.attempts

  -- One round of the loop; `none` where it raises.
  unfoldable pub check_row : SessionWindow → Scan → Row → Option Scan
  check_row w s row =
      if not (same_cycle row.cycle w.cycle)
        || not (row.sequence == s.expected_sequence)
        || not (row.scheduled_at.value == w.scheduled_at.value)
        || not (row.missed_at.value == w.missed_at.value)
        || precedes row.recorded_at s.previous_at
        || not (str_eq row.event_hash (h.event_hash row.material))
        || s.terminal
      then none
      else check_kind row.event_kind w s row

  unfoldable pub check_rows : SessionWindow → Scan → List Row → Option Scan
  check_rows w s [] = some s
  check_rows w s (row ∷ rows) = elim (check_row w s row) [
    | none ↦ none
    | some next ↦ check_rows w next rows
  ]

  unfoldable pub validate_history : SessionWindow → List Row → Bool
  validate_history w rows = not (is_none (check_rows w initial rows))

unfoldable pub disposition_of : EventKind → ScheduledRunDisposition
disposition_of EventKind.started = ScheduledRunDisposition.started
disposition_of EventKind.resumed = ScheduledRunDisposition.resumed
disposition_of EventKind.completed = ScheduledRunDisposition.completed
disposition_of EventKind.missed = ScheduledRunDisposition.missed
disposition_of EventKind.refused = ScheduledRunDisposition.refused

-- The fields that `_status_from_history` hands to the constructor.
unfoldable pub row_status : SessionWindow → Row → ScheduledSessionStatus
unfolding disposition_of
row_status w row = record {
  cycle = w.cycle;
  scheduled_at = w.scheduled_at;
  missed_at = w.missed_at;
  disposition = disposition_of row.event_kind;
  attempts = row.attempt;
  recorded_at = row.recorded_at;
  lifecycle_receipt_hash = row.lifecycle_receipt_hash;
}

abbrev last_status : SessionWindow → Option Row → Result (Option ScheduledSessionStatus)
last_status w none = ok none
last_status w (some row) = do status ← scheduled_session_status (row_status w row); ok (some status)

unfoldable pub status_from_history :
    SessionWindow → List Row → Result (Option ScheduledSessionStatus)
status_from_history w rows = last_status w (get_last? rows)
