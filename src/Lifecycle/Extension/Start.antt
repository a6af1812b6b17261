-- ===== src/Lifecycle/Extension/Start.antt =====
-- First events of domain/lifecycle.py, and runs that start with them.
use agentic_investment_os.Prelude.{
  ◌≡◌, refl, Bool, true, ◌&&◌, none, [], ◌∷◌, String, ok, arith, eq_refl, eq_iff, ap, leb,
}
use agentic_investment_os.Temporal.{UtcInstant}
use agentic_investment_os.Scheduler.Policy.{MarketSession}
use agentic_investment_os.Scheduler.Status.{is_hash}
use agentic_investment_os.Lifecycle.Command.{
  AdvanceCommand, PinnedRunIdentity, UniverseInputIdentity, ConstitutionReference, Fingerprints,
  create_identity, run_material, stream_id,
}
use agentic_investment_os.Lifecycle.Stream.{
  LifecycleProgress, no_checkpoints, identity_is_valid, check_event, check_events, shape_is_valid,
  facts_are_consistent, is_pinned, observe, entry_at, reconstruct_stream,
}
use agentic_investment_os.Lifecycle.Decide.{first_event}
use agentic_investment_os.Lifecycle.Extension.Streams.{same_request_refl, same_identity_refl}

-- The hashes that a run pins are hashes.
abbrev pins_are_hashes : PinnedRunIdentity → Bool
pins_are_hashes i =
    is_hash i.research_policy_hash
    && is_hash i.portfolio_policy_hash
    && is_hash i.portfolio_input_hash
    && is_hash i.constitution_hash

abbrev pub started : AdvanceCommand → LifecycleProgress
started c = record {
  request = c.request;
  pinned_run_identity = c.pinned_run_identity;
  completed_phase = none;
  sequence = 0;
  checkpoints = no_checkpoints;
}

module _ (h : Fingerprints) where
  first_event-checked :
      (c : AdvanceCommand) (at : UtcInstant)
      → check_events h (first_event h c at) 0 no_checkpoints (first_event h c at ∷ [])
        ≡ ok no_checkpoints
  unfolding check_events check_event entry_at shape_is_valid facts_are_consistent is_pinned observe
  first_event-checked c at = ground (
    arith,
    eq_refl (stream_id h c.request),
    same_request_refl c.request,
    same_identity_refl c.pinned_run_identity,
  )

  first_event-reconstructs :
      (c : AdvanceCommand) (at : UtcInstant)
      → identity_is_valid h (first_event h c at) ≡ true
      → reconstruct_stream h (first_event h c at) [] ≡ ok (started c)
  unfolding reconstruct_stream
  first_event-reconstructs c at valid = rw (first_event-checked c at) (ground (arith, valid))

  -- The first event of a command whose identity `create_identity` made of its request, with version 1
  -- of the configuration, a version of the constitution that is at least 1, and pinned hashes that are
  -- hashes, starts a stream that is reconstructed with nothing completed.
  pub created-reconstructs :
      (c : AdvanceCommand) (at : UtcInstant)
      (configuration_hash research_policy_hash portfolio_policy_hash portfolio_input_hash : String)
      (inputs : UniverseInputIdentity) (constitution : ConstitutionReference)
      → c.pinned_run_identity
        ≡ create_identity h c.request 1 configuration_hash research_policy_hash
            portfolio_policy_hash portfolio_input_hash inputs constitution
      → leb 1 constitution.version ≡ true
      → pins_are_hashes c.pinned_run_identity ≡ true
      → reconstruct_stream h (first_event h c at) [] ≡ ok (started c)
  unfolding create_identity identity_is_valid run_material
  created-reconstructs c at configuration_hash research_policy_hash portfolio_policy_hash
        portfolio_input_hash inputs constitution created version pins =
      let i = c.pinned_run_identity in
      let material : i.run_id ≡ h.run_fingerprint (run_material c.request i) = rw created refl in
      let fingerprint =
        (eq_iff i.run_id (h.run_fingerprint (run_material c.request i))).1 material in
      let supported : i.configuration_version ≡ 1 = rw created refl in
      let governed : i.constitution_version ≡ constitution.version = rw created refl in
      let same_session : i.cycle ≡ c.request.session = rw created refl in
      let same_date : i.cycle.trading_date ≡ c.request.session.trading_date =
        ap (λ (m : MarketSession). m.trading_date) same_session in
      first_event-reconstructs c at (
        ground (
          arith,
          supported,
          governed,
          same_date,
          version,
          pins,
          fingerprint,
          eq_refl (stream_id h c.request),
        ))
