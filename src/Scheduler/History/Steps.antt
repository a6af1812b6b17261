-- ===== src/Scheduler/History/Steps.antt =====
-- `_validate_history` of adapters/sqlite_scheduler.py, one event at a time.
use agentic_investment_os.Prelude.{
  ◌+◌, ◌≤◌, ◌≡◌, refl, Bool, true, false, not, Option, none, some, String, List, [], ◌∷◌, ◌++◌,
  get_last?, arith, eq_iff, max, Option-cases, inl, inr,
}
use agentic_investment_os.Scheduler.Policy.{MarketSession}
use agentic_investment_os.Scheduler.Window.{SessionWindow, window_is_valid}
use agentic_investment_os.Scheduler.Status.{is_hash, is_open, status_is_valid}
use agentic_investment_os.Scheduler.Host.{EventKind, Host, HostLaws}
use agentic_investment_os.Scheduler.History.{
  Row, Scan, check_kind, check_row, check_rows, disposition_of, row_status, validate_receipt_text,
}
use agentic_investment_os.Scheduler.Ledger.{checks_hold, max_sequence}

-- The scan `s` stands just behind `row`.
pub record Behind (w : SessionWindow) (s : Scan) (row : Row) : Type 0 where
  pub sequence : s.expected_sequence ≡ row.sequence + 1
  pub previous : s.previous_at ≡ some row.recorded_at
  pub terminal : s.terminal ≡ not (is_open (disposition_of row.event_kind))
  pub attempts : s.terminal ≡ false → s.attempts ≡ row.attempt
  pub started : s.terminal ≡ false → 1 ≤ s.attempts
  pub since : s.terminal ≡ false → w.scheduled_at.value ≤ row.recorded_at.value

module _ {Receipt : Type 0} (h : Host Receipt) where
  check_kind-Behind :
      (k : EventKind) (w : SessionWindow) (s t : Scan) (row : Row)
      → row.event_kind ≡ k
      → row.sequence ≡ s.expected_sequence
      → check_kind h k w s row ≡ some t
      → Behind w t row
  unfolding check_kind disposition_of
  check_kind-Behind EventKind.started w s t row e q c = ground arith
  check_kind-Behind _ w s t row e q c = ground arith

  pub check_row-Behind :
      (w : SessionWindow) (s t : Scan) (row : Row) → check_row h w s row ≡ some t → Behind w t row
  unfolding check_row
  check_row-Behind w s t row c = ground (arith, check_kind-Behind row.event_kind w s t row refl)

  pub check_row-sequence :
      (w : SessionWindow) (s t : Scan) (row : Row)
      → check_row h w s row ≡ some t
      → row.sequence ≡ s.expected_sequence
  unfolding check_row
  check_row-sequence w s t row c = ground arith

  -- A scan of one more row.
  pub check_rows-snoc :
      (w : SessionWindow) (s t : Scan) (rows : List Row) (row : Row)
      → check_rows h w s rows ≡ some t
      → check_rows h w s (rows ++ row ∷ []) ≡ check_row h w t row
  unfolding check_rows
  check_rows-snoc w s t [] row e = ground arith
  check_rows-snoc w s t (x ∷ rows) row e = elim (Option-cases (check_row h w s x)) [
    | inl stops ↦ ground arith
    | inr (next, step) ↦ ground (arith, check_rows-snoc w next t rows row)
  ]

  -- The scan of a history that has events stands behind its last row, which it accepted.
  pub check_rows-last :
      (w : SessionWindow) (s t : Scan) (x : Row) (rows : List Row)
      → check_rows h w s (x ∷ rows) ≡ some t
      → (row : Row) × (before : Scan) × (get_last? (x ∷ rows) ≡ some row)
        × (check_row h w before row ≡ some t)
  unfolding check_rows
  check_rows-last w s t x [] e = elim (Option-cases (check_row h w s x)) [
    | inl stops ↦ absurd (ground arith)
    | inr (next, step) ↦ (x, s, refl, ground arith)
  ]
  check_rows-last w s t x (y ∷ rows) e = elim (Option-cases (check_row h w s x)) [
    | inl stops ↦ absurd (ground arith)
    | inr (next, step) ↦ check_rows-last w next t y rows (ground arith)
  ]

  -- The scan counts the rows: the largest sequence number is one below the next.
  pub check_rows-sequence :
      (w : SessionWindow) (s t : Scan) (rows : List Row)
      → 1 ≤ s.expected_sequence
      → check_rows h w s rows ≡ some t
      → max (s.expected_sequence) (max_sequence rows + 1) ≡ t.expected_sequence
  unfolding check_rows max_sequence
  check_rows-sequence w s t [] p e = ground arith
  check_rows-sequence w s t (x ∷ rows) p e = elim (Option-cases (check_row h w s x)) [
    | inl stops ↦ absurd (ground arith)
    | inr (next, step) ↦ ground (
      arith,
      check_rows-sequence w next t rows,
      (check_row-Behind w s next x step).sequence,
      check_row-sequence w s next x step,
    )
  ]

  module _ (laws : HostLaws h) where
    receipt_hash_ok :
        (text expected : Option String) (refused : Bool) (c : MarketSession)
        → validate_receipt_text h text expected refused c ≡ true
        → (e : String) × (expected ≡ some e) × (is_hash e ≡ true)
    unfolding validate_receipt_text
    receipt_hash_ok none expected refused c v = cc
    receipt_hash_ok (some text) none refused c v = absurd (ground arith)
    receipt_hash_ok (some text) (some e) refused c v = elim (Option-cases (h.receipt_parse text)) [
      | inl unread ↦ absurd (ground arith)
      | inr (r, read) ↦
          (e, refl, ground (arith, eq_iff e (h.receipt_hash r), laws.receipt_hash-is_hash r))
    ]

    check_kind-valid :
        (k : EventKind) (w : SessionWindow) (s t : Scan) (row : Row)
        → row.event_kind ≡ k
        → window_is_valid w ≡ true
        → checks_hold row ≡ true
        → check_kind h k w s row ≡ some t
        → status_is_valid (row_status w row) ≡ true
    unfolding check_kind row_status status_is_valid window_is_valid checks_hold
    check_kind-valid EventKind.completed w s t row k v c e =
        ground
          (arith, receipt_hash_ok row.lifecycle_receipt row.lifecycle_receipt_hash false w.cycle)
    check_kind-valid EventKind.refused w s t row k v c e =
        ground
          (arith, receipt_hash_ok row.lifecycle_receipt row.lifecycle_receipt_hash true w.cycle)
    check_kind-valid _ w s t row k v c e = ground arith

    -- An accepted row that meets the table's CHECKs gives a status that its constructor accepts.
    pub row_status-valid :
        (w : SessionWindow) (s t : Scan) (row : Row)
        → window_is_valid w ≡ true
        → checks_hold row ≡ true
        → check_row h w s row ≡ some t
        → status_is_valid (row_status w row) ≡ true
    unfolding check_row
    row_status-valid w s t row v c e =
        check_kind-valid row.event_kind w s t row refl v c (ground arith)
