-- ===== src/Tests/Streams.antt =====
-- A run of one session, from its first event to its decision.
use agentic_investment_os.Prelude.{true, none}
use agentic_investment_os.Temporal.{UtcInstant}
use agentic_investment_os.Lifecycle.Command.{
  AdvanceRequest, PinnedRunIdentity, UniverseInputIdentity, UniverseSnapshot, AdvanceCommand,
  Fingerprints,
}
use agentic_investment_os.Tests.Fixture.{monday, zeros}

-- Every material has one fingerprint here.
abbrev pub prints : Fingerprints
prints = record {
  run_fingerprint = λ m. zeros;
  stream_fingerprint = λ s. "stream";
  is_canonical = λ a. true;
  attention_history_fingerprint = λ l. "history";
  attention_history_is_valid = λ l. true;
}

abbrev pub cutoff : UtcInstant
cutoff = record { value = 43_200_000_000 }

abbrev pub request : AdvanceRequest
request = record { session = monday; idempotency_key = "request-1" }

abbrev pub inputs : UniverseInputIdentity
inputs = record {
  data_regime = "live";
  evidence_cutoff = cutoff;
  instrument_snapshot_hash = zeros;
  position_snapshot_hash = zeros;
  eligibility_policy_hash = zeros;
}

abbrev pub identity : PinnedRunIdentity
identity = record {
  run_id = zeros;
  cycle = monday;
  configuration_version = 1;
  configuration_hash = zeros;
  research_policy_hash = zeros;
  constitution_version = 1;
  constitution_hash = zeros;
  data_regime = "live";
  evidence_cutoff = cutoff;
  instrument_snapshot_hash = zeros;
  position_snapshot_hash = zeros;
  eligibility_policy_hash = zeros;
  portfolio_policy_hash = zeros;
  portfolio_input_hash = zeros;
}

abbrev pub snapshot : UniverseSnapshot
snapshot = record { snapshot_id = "snapshot"; run_id = zeros; cycle = monday; inputs = inputs }

abbrev pub command : AdvanceCommand
command = record {
  request = request;
  pinned_run_identity = identity;
  universe_snapshot = snapshot;
  evidence_capture = none;
  attention_selection = none;
  dossier_build = none;
  research_run = none;
  memory_update = none;
  portfolio_construction = none;
  decision_publication = none;
  no_action_reason = none;
}
