-- ===== src/Memory/Evidence.antt =====
-- `validate_belief_evidence` of memory/admission.py.
use agentic_investment_os.Prelude.{
  ◌≡◌, ◌≤◌, refl, Bool, true, ◌&&◌, not, Option, none, some, List, [], ◌∷◌, String, str_eq, eq_iff,
  ltb, ascending, All, IsIn, inl, inr, arith, Bool-cases, Option-cases, if◌then◌else◌,
}
use agentic_investment_os.Temporal.{UtcInstant}
use agentic_investment_os.Scheduler.Status.{is_hash}
use agentic_investment_os.Memory.Event.{
  Admission, BeliefEvent, BeliefEvidenceReference, validate_belief_event,
}
use agentic_investment_os.Memory.Reducer.{RecordRefusalCode}

pub record BeliefEvidenceArtifact : Type 0 where
  pub artifact_id : String
  pub content_hash : String
  pub available_at : UtcInstant

abbrev ids : List BeliefEvidenceArtifact → List String
ids [] = []
ids (x ∷ xs) = x.artifact_id ∷ ids xs

-- `_valid_artifact` for every one
unfoldable pub valid_artifacts : List BeliefEvidenceArtifact → Bool
valid_artifacts [] = true
valid_artifacts (x ∷ xs) = is_hash x.artifact_id && is_hash x.content_hash && valid_artifacts xs

-- `by_id.get`; the identities differ.
unfoldable pub find_artifact : String → List BeliefEvidenceArtifact → Option BeliefEvidenceArtifact
find_artifact id [] = none
find_artifact id (x ∷ xs) = if str_eq x.artifact_id id then some x else find_artifact id xs

-- The checks of one reference, as its event has the cutoff
unfoldable pub check_reference :
    UtcInstant → BeliefEvidenceReference → Option BeliefEvidenceArtifact → Option RecordRefusalCode
check_reference cutoff r none = some RecordRefusalCode.evidence_missing
check_reference cutoff r (some x) =
    if not (str_eq x.content_hash r.content_hash)
    then some RecordRefusalCode.evidence_hash_mismatch
    else if ltb cutoff.value x.available_at.value
    then some RecordRefusalCode.evidence_after_cutoff
    else none

abbrev or_next : Option RecordRefusalCode → Option RecordRefusalCode → Option RecordRefusalCode
or_next (some c) rest = some c
or_next none rest = rest

unfoldable pub check_references :
    List BeliefEvidenceArtifact
    → UtcInstant
    → List BeliefEvidenceReference
    → Option RecordRefusalCode
check_references artifacts cutoff [] = none
check_references artifacts cutoff (r ∷ rs) =
    or_next (check_reference cutoff r (find_artifact r.artifact_id artifacts))
      (check_references artifacts cutoff rs)

unfoldable pub check_events :
    List BeliefEvidenceArtifact → List BeliefEvent → Option RecordRefusalCode
check_events artifacts [] = none
check_events artifacts (e ∷ es) =
    or_next (check_references artifacts e.evidence_cutoff e.evidence) (check_events artifacts es)

module _ (a : Admission) where
  unfoldable pub valid_events : List BeliefEvent → Bool
  valid_events [] = true
  valid_events (e ∷ es) = validate_belief_event a e && valid_events es

  unfoldable pub validate_belief_evidence :
      List BeliefEvent → List BeliefEvidenceArtifact → Option RecordRefusalCode
  validate_belief_evidence events artifacts =
      if not (valid_events events && valid_artifacts artifacts)
      then some RecordRefusalCode.invalid_evidence
      else if not (ascending (ids artifacts))
      then some RecordRefusalCode.invalid_evidence
      else check_events artifacts events

find_artifact-IsIn :
    (id : String) (xs : List BeliefEvidenceArtifact) (x : BeliefEvidenceArtifact)
    → find_artifact id xs ≡ some x
    → IsIn x xs × (x.artifact_id ≡ id)
unfolding find_artifact
find_artifact-IsIn id [] x found = absurd (ground arith)
find_artifact-IsIn id (y ∷ ys) x found = elim (Bool-cases (str_eq y.artifact_id id)) [
  | inl here ↦
      let same : x ≡ y = ground (arith, found, here) in
      (inl same, rw same ((eq_iff y.artifact_id id).0 here))
  | inr other ↦
      let (i, own) = find_artifact-IsIn id ys x (ground (arith, found, other)) in (inr i, own)
]

-- The artifact that a reference pins was available by the cutoff.
pub record IsResolved (artifacts : List BeliefEvidenceArtifact) (cutoff : UtcInstant)
    (r : BeliefEvidenceReference) : Type 0 where
  pub artifact : BeliefEvidenceArtifact
  pub known : IsIn artifact artifacts
  pub pinned : artifact.artifact_id ≡ r.artifact_id
  pub unchanged : artifact.content_hash ≡ r.content_hash
  pub available : artifact.available_at.value ≤ cutoff.value

check_reference-IsResolved :
    (artifacts : List BeliefEvidenceArtifact) (cutoff : UtcInstant) (r : BeliefEvidenceReference)
    → check_reference cutoff r (find_artifact r.artifact_id artifacts) ≡ none
    → IsResolved artifacts cutoff r
unfolding check_reference
check_reference-IsResolved artifacts cutoff r passed =
    elim (Option-cases (find_artifact r.artifact_id artifacts)) [
      | inl missing ↦ absurd (ground (arith, passed, missing))
      | inr (x, found) ↦
          let (i, own) = find_artifact-IsIn r.artifact_id artifacts x found in
          let same : str_eq x.content_hash r.content_hash ≡ true = ground (arith, passed, found) in
          record {
            artifact = x;
            known = i;
            pinned = own;
            unchanged = (eq_iff x.content_hash r.content_hash).0 same;
            available = ground (arith, passed, found);
          }
    ]

or_next-none : (c d : Option RecordRefusalCode) → or_next c d ≡ none → (c ≡ none) × (d ≡ none)
or_next-none none d e = (refl, e)
or_next-none (some c) d e = absurd (ground (arith, e))

check_references-IsResolved :
    (artifacts : List BeliefEvidenceArtifact) (cutoff : UtcInstant)
    (rs : List BeliefEvidenceReference)
    → check_references artifacts cutoff rs ≡ none
    → All (IsResolved artifacts cutoff) rs
unfolding check_references
check_references-IsResolved artifacts cutoff [] passed = tt
check_references-IsResolved artifacts cutoff (r ∷ rs) passed =
    let (here, later) = or_next-none _ _ passed in
    (
      check_reference-IsResolved artifacts cutoff r here,
      check_references-IsResolved artifacts cutoff rs later,
    )

check_events-IsResolved :
    (artifacts : List BeliefEvidenceArtifact) (es : List BeliefEvent)
    → check_events artifacts es ≡ none
    → All (λ (e : BeliefEvent). All (IsResolved artifacts e.evidence_cutoff) e.evidence) es
unfolding check_events
check_events-IsResolved artifacts [] passed = tt
check_events-IsResolved artifacts (e ∷ es) passed =
    let (here, later) = or_next-none _ _ passed in
    (
      check_references-IsResolved artifacts e.evidence_cutoff e.evidence here,
      check_events-IsResolved artifacts es later,
    )

-- If the evidence of some events is accepted, every reference of every event pins an artifact with
-- its identity and its content hash, which was available by the event's cutoff.
pub accepted_evidence-IsResolved :
    (a : Admission) (es : List BeliefEvent) (artifacts : List BeliefEvidenceArtifact)
    → validate_belief_evidence a es artifacts ≡ none
    → All (λ (e : BeliefEvent). All (IsResolved artifacts e.evidence_cutoff) e.evidence) es
unfolding validate_belief_evidence
accepted_evidence-IsResolved a es artifacts accepted =
    check_events-IsResolved artifacts es (ground (arith, accepted))
