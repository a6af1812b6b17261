-- ===== src/Scheduler/Host.antt =====
-- What the scheduler's ledger takes from elsewhere: the time zone, SHA-256 over canonical JSON, and
-- the receipts of `Advance`, which it stores as text and reads back. A receipt whose cycle is no
-- market session has the cycle `none` here.
use agentic_investment_os.Prelude.{ℕ, ◌≡◌, true, Bool, Option, none, some, String, ◌==◌}
use agentic_investment_os.Temporal.{UtcInstant}
use agentic_investment_os.Scheduler.Zone.{Zone, ZoneLaws}
use agentic_investment_os.Scheduler.Policy.{MarketSession}
use agentic_investment_os.Scheduler.Status.{is_hash}

-- The kinds that the table's CHECK admits.
pub data EventKind : Type 0 where
  started resumed completed missed refused : EventKind

-- The columns that `_append_event` hashes.
pub record Material : Type 0 where
  pub cycle : MarketSession
  pub sequence : ℕ
  pub event_kind : EventKind
  pub scheduled_at : UtcInstant
  pub missed_at : UtcInstant
  pub attempt : ℕ
  pub lifecycle_receipt : Option String
  pub lifecycle_receipt_hash : Option String
  pub recorded_at : UtcInstant

pub record Host (Receipt : Type 0) : Type 0 where
  pub zone : Zone
  -- `_hash` of the material
  pub event_hash : Material → String
  pub receipt_cycle : Receipt → Option MarketSession
  -- `receipt.disposition.value == "failed_closed"`
  pub receipt_failed : Receipt → Bool
  -- the payload's `content_hash`
  pub receipt_hash : Receipt → String
  -- `_canonical_json(receipt.to_payload())`
  pub receipt_text : Receipt → String
  -- `parse_advance_receipt` of a canonical JSON text
  pub receipt_parse : String → Option Receipt

-- Hashes are 64 hexadecimal digits, and a receipt's text reads back as the receipt.
pub record HostLaws {Receipt : Type 0} (h : Host Receipt) : Type 0 where
  pub zone_laws : ZoneLaws h.zone
  pub event_hash-is_hash : (m : Material) → is_hash (h.event_hash m) ≡ true
  pub receipt_hash-is_hash : (r : Receipt) → is_hash (h.receipt_hash r) ≡ true
  pub parse-text : (r : Receipt) → h.receipt_parse (h.receipt_text r) ≡ some r

abbrev pub same_cycle : MarketSession → MarketSession → Bool
same_cycle c d = c.trading_date == d.trading_date

abbrev cycle_matches : Option MarketSession → MarketSession → Bool
cycle_matches none d = Bool.false
cycle_matches (some c) d = same_cycle c d

-- `receipt_matches_session` of domain/scheduler.py
unfoldable pub receipt_matches_session :
    {Receipt : Type 0} → Host Receipt → Receipt → MarketSession → Bool
receipt_matches_session h receipt cycle = cycle_matches (h.receipt_cycle receipt) cycle
