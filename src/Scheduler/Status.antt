-- ===== src/Scheduler/Status.antt =====
-- `ScheduledRunDisposition`, `ScheduledSessionStatus`, the claims and the reports of
-- domain/scheduler.py.
use Prim.Native.Char.{Char, code}
use agentic_investment_os.Prelude.{
  ℕ, suc, Bool, true, false, ◌&&◌, ◌||◌, not, Option, none, some, List, ltb, leb, ◌==◌, is_none,
  String, Result, ok, invalid_status, ◌>>◌, raise_if,
}
use agentic_investment_os.Temporal.{UtcInstant}
use agentic_investment_os.Scheduler.Policy.{MarketSession, SchedulerPolicy}
use agentic_investment_os.Scheduler.Window.{SessionWindow}

pub data ScheduledRunDisposition : Type 0 where
  pending started resumed completed missed refused : ScheduledRunDisposition

pub record ScheduledSessionStatus : Type 0 where
  pub cycle : MarketSession
  pub scheduled_at : UtcInstant
  pub missed_at : UtcInstant
  pub disposition : ScheduledRunDisposition
  pub attempts : ℕ
  pub recorded_at : UtcInstant
  pub lifecycle_receipt_hash : Option String

abbrev is_hex_digit : Char → Bool
is_hex_digit c = leb 48 (code c) && leb (code c) 57 || leb 97 (code c) && leb (code c) 102

-- Every character is one of "0123456789abcdef".
all_hex : String → Bool
all_hex String.[] = true
all_hex (String.◌∷◌ c s) = is_hex_digit c && all_hex s

-- `len(text)`, in characters
text_length : String → ℕ
text_length String.[] = 0
text_length (String.◌∷◌ c s) = suc (text_length s)

abbrev pub hash_length : ℕ
hash_length = 64

unfoldable pub has_hash_length : String → Bool
unfolding text_length
has_hash_length text = text_length text == hash_length

unfoldable pub is_hash : String → Bool
unfolding all_hex has_hash_length
is_hash text = has_hash_length text && all_hex text

abbrev pub is_open : ScheduledRunDisposition → Bool
is_open ScheduledRunDisposition.started = true
is_open ScheduledRunDisposition.resumed = true
is_open _ = false

abbrev pub has_receipt : ScheduledRunDisposition → Bool
has_receipt ScheduledRunDisposition.completed = true
has_receipt ScheduledRunDisposition.refused = true
has_receipt _ = false

abbrev has_no_attempt : ScheduledRunDisposition → Bool
has_no_attempt ScheduledRunDisposition.pending = true
has_no_attempt ScheduledRunDisposition.missed = true
has_no_attempt _ = false

abbrev bool_eq : Bool → Bool → Bool
bool_eq true b = b
bool_eq false b = not b

abbrev bad_hash : Option String → Bool
bad_hash none = false
bad_hash (some text) = not (is_hash text)

-- `__post_init__` raises unless this holds.
unfoldable pub status_is_valid : ScheduledSessionStatus → Bool
unfolding is_hash
status_is_valid s = not (
    ltb s.missed_at.value s.scheduled_at.value
    || (has_no_attempt s.disposition && not (s.attempts == 0))
    || ((is_open s.disposition || has_receipt s.disposition) && ltb s.attempts 1)
    || bool_eq (has_receipt s.disposition) (is_none s.lifecycle_receipt_hash)
    || bad_hash s.lifecycle_receipt_hash)

-- The constructor with its check.
unfoldable pub scheduled_session_status : ScheduledSessionStatus → Result ScheduledSessionStatus
scheduled_session_status s = raise_if (not (status_is_valid s)) invalid_status >> ok s

pub data SchedulerClaimDisposition : Type 0 where
  start resume wait terminal missed : SchedulerClaimDisposition

pub record SchedulerClaim : Type 0 where
  pub window : SessionWindow
  pub disposition : SchedulerClaimDisposition
  pub attempt : ℕ
  pub status : ScheduledSessionStatus

-- The snapshot and the reports carry the policy for its identity, which is a hash of the policy.
pub record SchedulerSnapshot : Type 0 where
  pub policy : SchedulerPolicy
  pub sessions : List ScheduledSessionStatus

pub record SchedulerReceipt : Type 0 where
  pub policy : SchedulerPolicy
  pub recorded_at : UtcInstant
  pub sessions : List ScheduledSessionStatus
  pub pending : Option ScheduledSessionStatus

pub record SchedulerStatus : Type 0 where
  pub policy : SchedulerPolicy
  pub sessions : List ScheduledSessionStatus
  pub pending : Option ScheduledSessionStatus
