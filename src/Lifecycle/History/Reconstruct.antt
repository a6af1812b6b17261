-- ===== src/Lifecycle/History/Reconstruct.antt =====
-- `reconstruct_lifecycle` of domain/lifecycle.py.
use agentic_investment_os.Prelude.{
  Bool, true, ◌&&◌, ◌||◌, not, Option, none, some, List, [], ◌∷◌, ◌++◌, String, str_eq, ◌==◌, ltb,
  text_lt, Result, ok, err, invalid_lifecycle_state, ◌>>=◌, if◌then◌else◌,
}
use agentic_investment_os.Lifecycle.Command.{AttentionArtifact, Fingerprints}
use agentic_investment_os.Lifecycle.Stream.{LifecycleEvent, LifecycleProgress, reconstruct_stream}
use agentic_investment_os.Lifecycle.History.Records.{LifecycleHistory}
use agentic_investment_os.Lifecycle.History.Association.{
  is_text_in, validate_refusals, validate_conflicts,
}

-- The events of one stream, in their order
pub record EventStream : Type 0 where
  pub first : LifecycleEvent
  pub rest : List LifecycleEvent

abbrev start_stream : LifecycleEvent → EventStream
start_stream e = record { first = e; rest = [] }

abbrev extend_stream : EventStream → LifecycleEvent → EventStream
extend_stream s e = record { first = s.first; rest = s.rest ++ e ∷ [] }

-- `streams.setdefault(event.stream_id, []).append(event)`
unfoldable pub add_event : LifecycleEvent → List EventStream → List EventStream
add_event e [] = start_stream e ∷ []
add_event e (s ∷ ss) =
    let rest = add_event e ss in
    if str_eq s.first.stream_id e.stream_id then extend_stream s e ∷ ss else s ∷ rest

unfoldable pub group_events : List EventStream → List LifecycleEvent → List EventStream
group_events streams [] = streams
group_events streams (e ∷ es) = group_events (add_event e streams) es

unfoldable pub reconstruct_streams :
    Fingerprints → List EventStream → Result (List LifecycleProgress)
reconstruct_streams h [] = ok []
reconstruct_streams h (s ∷ ss) = do
  p ← reconstruct_stream h s.first s.rest
  ps ← reconstruct_streams h ss
  ok (p ∷ ps)

-- The order of `(artifact.cycle.trading_date, artifact.artifact_id)`
abbrev artifact_lt : AttentionArtifact → AttentionArtifact → Bool
artifact_lt a b =
    ltb a.cycle.trading_date b.cycle.trading_date
    || (a.cycle.trading_date == b.cycle.trading_date && text_lt a.artifact_id b.artifact_id)

abbrev insert_artifact : AttentionArtifact → List AttentionArtifact → List AttentionArtifact
insert_artifact a [] = a ∷ []
insert_artifact a (b ∷ bs) =
    let rest = insert_artifact a bs in if artifact_lt b a then b ∷ rest else a ∷ b ∷ bs

abbrev add_artifact : Option AttentionArtifact → List AttentionArtifact → List AttentionArtifact
add_artifact none artifacts = artifacts
add_artifact (some a) artifacts = insert_artifact a artifacts

-- The sorted artifacts of the streams
unfoldable pub attention_history : List LifecycleProgress → List AttentionArtifact
attention_history [] = []
attention_history (p ∷ ps) = add_artifact p.checkpoints.attention_artifact (attention_history ps)

-- No key is in `seen`, and none occurs twice.
unfoldable pub distinct_keys : List String → List LifecycleProgress → Bool
distinct_keys seen [] = true
distinct_keys seen (p ∷ ps) =
    not (is_text_in p.request.idempotency_key seen)
    && distinct_keys (p.request.idempotency_key ∷ seen) ps

unfoldable pub history_is_valid : Fingerprints → LifecycleHistory → List LifecycleProgress → Bool
history_is_valid h history ps =
    h.attention_history_is_valid (attention_history ps)
    && distinct_keys [] ps
    && validate_refusals history.refusals ps
    && validate_conflicts history.conflicts ps

unfoldable pub reconstruct_lifecycle :
    Fingerprints → LifecycleHistory → Result (List LifecycleProgress)
reconstruct_lifecycle h history = do
  ps ← reconstruct_streams h (group_events [] history.events)
  if history_is_valid h history ps then ok ps else err invalid_lifecycle_state
