-- ===== src/Scheduler/Ledger.antt =====
-- `SQLiteSchedulerLedger` of adapters/sqlite_scheduler.py. An operation is one transaction: it
-- returns the new database, or raises and leaves the old one. The database is intact and has the
-- expected schema; what remains of `_validate_database` is the pinned policy.
pub mod Table
pub mod Cycles
pub mod Valid
pub mod Append
use agentic_investment_os.Prelude.{
  ℕ, suc, ◌+◌, ◌-◌, ◌*◌, ◌/◌, Bool, true, false, ◌&&◌, ◌||◌, not, Option, none, some, List, [], ◌∷◌,
  ◌++◌, String, ltb, leb, ◌==◌, is_none, max, if◌then◌else◌, Result, ok, err, invalid, integrity,
  policy_conflict, ◌>>=◌, ◌>>◌, raise_if,
}
use agentic_investment_os.Temporal.{UtcInstant, microseconds_per_second}
use agentic_investment_os.Scheduler.Policy.{MarketSession, SchedulerPolicy, policy_eq}
use agentic_investment_os.Scheduler.Window.{SessionWindow, build_session_window}
use agentic_investment_os.Scheduler.Status.{
  ScheduledRunDisposition, ScheduledSessionStatus, SchedulerClaim, SchedulerClaimDisposition,
  SchedulerSnapshot, has_hash_length, is_open,
}
use agentic_investment_os.Scheduler.Host.{
  EventKind, Material, Host, same_cycle, receipt_matches_session,
}
use agentic_investment_os.Scheduler.History.{Row, validate_history, status_from_history}

-- The pinned metadata row, and the events.
pub record Database : Type 0 where
  pub policy : SchedulerPolicy
  pub events : List Row

-- `WHERE cycle = ?`
unfoldable pub where_cycle : MarketSession → List Row → List Row
where_cycle c [] = []
where_cycle c (row ∷ rows) =
    let rest = where_cycle c rows in if same_cycle row.cycle c then row ∷ rest else rest

unfoldable pub insert_by_sequence : Row → List Row → List Row
insert_by_sequence row [] = row ∷ []
insert_by_sequence row (x ∷ xs) =
    let rest = insert_by_sequence row xs in
    if leb row.sequence x.sequence then row ∷ x ∷ xs else x ∷ rest

-- `ORDER BY sequence`
unfoldable pub order_by_sequence : List Row → List Row
order_by_sequence [] = []
order_by_sequence (row ∷ rows) = insert_by_sequence row (order_by_sequence rows)

unfoldable pub select_cycle : MarketSession → List Row → List Row
select_cycle c rows = order_by_sequence (where_cycle c rows)

unfoldable pub insert_cycle : MarketSession → List MarketSession → List MarketSession
insert_cycle c [] = c ∷ []
insert_cycle c (d ∷ ds) =
    let rest = insert_cycle c ds in
    if same_cycle c d
    then d ∷ ds
    else if ltb c.trading_date d.trading_date
    then c ∷ d ∷ ds
    else d ∷ rest

-- `SELECT DISTINCT cycle ... ORDER BY cycle`; ISO dates are ordered as dates.
unfoldable pub distinct_cycles : List Row → List MarketSession
distinct_cycles [] = []
distinct_cycles (row ∷ rows) = insert_cycle row.cycle (distinct_cycles rows)

-- `SELECT MAX(sequence)`, 0 if there is no row
unfoldable pub max_sequence : List Row → ℕ
max_sequence [] = 0
max_sequence (row ∷ rows) = max row.sequence (max_sequence rows)

abbrev hash_column_ok : Option String → Bool
hash_column_ok none = true
hash_column_ok (some text) = has_hash_length text

abbrev kind_columns_ok : EventKind → ℕ → Bool → Bool → Bool
kind_columns_ok EventKind.started attempt no_text no_hash = leb 1 attempt && no_text && no_hash
kind_columns_ok EventKind.resumed attempt no_text no_hash = leb 1 attempt && no_text && no_hash
kind_columns_ok EventKind.completed attempt no_text no_hash =
    leb 1 attempt && not no_text && not no_hash
kind_columns_ok EventKind.refused attempt no_text no_hash =
    leb 1 attempt && not no_text && not no_hash
kind_columns_ok EventKind.missed attempt no_text no_hash = attempt == 0 && no_text && no_hash

-- The CHECK constraints of `scheduler_events`
unfoldable pub checks_hold : Row → Bool
checks_hold row =
    leb 1 row.sequence
    && hash_column_ok row.lifecycle_receipt_hash
    && has_hash_length row.event_hash
    && kind_columns_ok row.event_kind row.attempt (is_none row.lifecycle_receipt)
        (is_none row.lifecycle_receipt_hash)

-- PRIMARY KEY (cycle, sequence)
unfoldable pub key_taken : MarketSession → ℕ → List Row → Bool
key_taken c n [] = false
key_taken c n (row ∷ rows) = (same_cycle row.cycle c && row.sequence == n) || key_taken c n rows

-- `INSERT INTO scheduler_events`
unfoldable pub insert_row : Row → List Row → Result (List Row)
insert_row row rows = do
  raise_if (not (checks_hold row) || key_taken row.cycle row.sequence rows) integrity
  ok (rows ++ row ∷ [])

module _ {Receipt : Type 0} (h : Host Receipt) where
  -- The loop of `_load_cycle` under `validate_all`, over the cycles of the table
  unfoldable pub validate_cycles : SessionWindow → List Row → List MarketSession → Result (Unit {0})
  validate_cycles w rows [] = ok tt
  validate_cycles w rows (c ∷ cs) = do
    other ←
        build_session_window h.zone c ((w.opens_at.value - w.scheduled_at.value) / 60_000_000)
          ((w.missed_at.value - w.scheduled_at.value) / 60_000_000)
    elim other [
      | none ↦ err invalid
      | some other_window ↦
          raise_if (not (validate_history h other_window (select_cycle c rows))) invalid
          >> validate_cycles w rows cs
    ]

  unfoldable pub load_cycle_validating_all : SessionWindow → List Row → Result (List Row)
  load_cycle_validating_all w rows = do
    validate_cycles w rows (distinct_cycles rows)
    ok (select_cycle w.cycle rows)

  -- `validate_all=False`
  unfoldable pub load_cycle : SessionWindow → List Row → Result (List Row)
  load_cycle w rows = do
    raise_if (not (validate_history h w (select_cycle w.cycle rows))) invalid
    ok (select_cycle w.cycle rows)

  unfoldable pub new_row :
      SessionWindow → EventKind → ℕ → UtcInstant → Option String → Option String → List Row → Row
  new_row w kind attempt recorded_at receipt_text receipt_hash rows =
      let material : Material = record {
        cycle = w.cycle;
        sequence = max_sequence (where_cycle w.cycle rows) + 1;
        event_kind = kind;
        scheduled_at = w.scheduled_at;
        missed_at = w.missed_at;
        attempt = attempt;
        lifecycle_receipt = receipt_text;
        lifecycle_receipt_hash = receipt_hash;
        recorded_at = recorded_at;
      } in
      record { material = material; event_hash = h.event_hash material }

  -- `_append_event`
  unfoldable pub append_event :
      SessionWindow
      → EventKind
      → ℕ
      → UtcInstant
      → Option String
      → Option String
      → Database
      → Result (ScheduledSessionStatus × Database)
  append_event w kind attempt recorded_at receipt_text receipt_hash db = do
    rows ←
        insert_row (new_row w kind attempt recorded_at receipt_text receipt_hash db.events)
          db.events
    status ← status_from_history w (select_cycle w.cycle rows)
    elim status [ none ↦ err invalid | some s ↦ ok (s, record db { events = rows }) ]
