-- ===== src/Memory/Equality.antt =====
-- `==` of belief events, of memory/admission.py, on one event.
use text.Mathlib.TextPositions.{eq_refl}
use agentic_investment_os.Prelude.{
  ◌≡◌, refl, ap, sym, ◌∙◌, if◌then◌else◌, true, Option, none, some, List, [], ◌∷◌, String, str_eq,
  ◌==◌, Bool, false, ◌&&◌, eq_iff, arith,
}
use agentic_investment_os.Temporal.{UtcInstant}
use agentic_investment_os.Memory.Event.{
  BeliefEvent, BeliefEvidenceReference, BeliefClaimKind, EquityInstrumentIdentity, subject_eq,
  claim_kind_eq, relationship_value, BeliefEvidenceRelationship, BeliefStatus, status_value,
  event_eq, option_eq, strings_eq, reference_eq, references_eq,
}

claim_kind_eq_refl : (k : BeliefClaimKind) → claim_kind_eq k k ≡ true
claim_kind_eq_refl BeliefClaimKind.expectation = refl
claim_kind_eq_refl BeliefClaimKind.causal = refl
claim_kind_eq_refl BeliefClaimKind.catalyst = refl
claim_kind_eq_refl BeliefClaimKind.risk = refl
claim_kind_eq_refl BeliefClaimKind.valuation = refl
claim_kind_eq_refl BeliefClaimKind.liquidity = refl

option_eq_refl : (o : Option String) → option_eq o o ≡ true
option_eq_refl none = refl
option_eq_refl (some s) = eq_refl s

strings_eq_refl : (ss : List String) → strings_eq ss ss ≡ true
strings_eq_refl [] = refl
strings_eq_refl (s ∷ ss) = rw (eq_refl s) (strings_eq_refl ss)

references_eq_refl : (rs : List BeliefEvidenceReference) → references_eq rs rs ≡ true
references_eq_refl [] = refl
references_eq_refl (r ∷ rs) =
    rw (eq_refl r.artifact_id, eq_refl r.content_hash, eq_refl (relationship_value r.relationship))
      (references_eq_refl rs)

pub event_eq_refl : (e : BeliefEvent) → event_eq e e ≡ true
unfolding event_eq
event_eq_refl e = ground (
  arith,
  eq_refl e.event_id,
  eq_refl e.belief_id,
  eq_refl e.subject.catalog_namespace,
  eq_refl e.subject.catalog_id,
  eq_refl e.subject.listing_venue,
  claim_kind_eq_refl e.claim_kind,
  eq_refl e.claim,
  eq_refl e.confidence,
  references_eq_refl e.evidence,
  strings_eq_refl e.falsifiers,
  eq_refl (status_value e.status),
  option_eq_refl e.transition_from_event_id,
  option_eq_refl e.supersedes_event_id,
  eq_refl e.content_hash,
)

-- `==` that holds of equal events only
claim_kind_eq_sound : (a b : BeliefClaimKind) → claim_kind_eq a b ≡ true → a ≡ b
claim_kind_eq_sound a b e = ground (arith, e)

-- The member of a value, to tell values apart
abbrev relationship_of : String → BeliefEvidenceRelationship
relationship_of t =
    if str_eq t "supporting"
    then BeliefEvidenceRelationship.supporting
    else BeliefEvidenceRelationship.contradicting

relationship_of-value :
    (r : BeliefEvidenceRelationship) → relationship_of (relationship_value r) ≡ r
relationship_of-value BeliefEvidenceRelationship.supporting = refl
relationship_of-value BeliefEvidenceRelationship.contradicting = refl

relationship_value_inj :
    (a b : BeliefEvidenceRelationship)
    → str_eq (relationship_value a) (relationship_value b) ≡ true
    → a ≡ b
relationship_value_inj a b e =
    sym (relationship_of-value a)
    ∙ ap relationship_of ((eq_iff (relationship_value a) (relationship_value b)).0 e)
    ∙ relationship_of-value b

abbrev status_of : String → BeliefStatus
status_of t =
    if str_eq t "active"
    then BeliefStatus.active
    else if str_eq t "weakened"
    then BeliefStatus.weakened
    else if str_eq t "contradicted"
    then BeliefStatus.contradicted
    else if str_eq t "superseded"
    then BeliefStatus.superseded
    else if str_eq t "refuted"
    then BeliefStatus.refuted
    else if str_eq t "expired"
    then BeliefStatus.expired
    else if str_eq t "dormant"
    then BeliefStatus.dormant
    else BeliefStatus.archived

status_of-value : (s : BeliefStatus) → status_of (status_value s) ≡ s
status_of-value BeliefStatus.active = refl
status_of-value BeliefStatus.weakened = refl
status_of-value BeliefStatus.contradicted = refl
status_of-value BeliefStatus.superseded = refl
status_of-value BeliefStatus.refuted = refl
status_of-value BeliefStatus.expired = refl
status_of-value BeliefStatus.dormant = refl
status_of-value BeliefStatus.archived = refl

status_value_inj : (a b : BeliefStatus) → str_eq (status_value a) (status_value b) ≡ true → a ≡ b
status_value_inj a b e =
    sym (status_of-value a)
    ∙ ap status_of ((eq_iff (status_value a) (status_value b)).0 e)
    ∙ status_of-value b

option_eq_sound : (a b : Option String) → option_eq a b ≡ true → a ≡ b
option_eq_sound none none e = refl
option_eq_sound none (some t) e = absurd (ground (arith, e))
option_eq_sound (some s) none e = absurd (ground (arith, e))
option_eq_sound (some s) (some t) e = ap some ((eq_iff s t).0 e)

strings_eq_sound : (a b : List String) → strings_eq a b ≡ true → a ≡ b
strings_eq_sound [] [] e = refl
strings_eq_sound [] (t ∷ ts) e = absurd (ground (arith, e))
strings_eq_sound (s ∷ ss) [] e = absurd (ground (arith, e))
strings_eq_sound (s ∷ ss) (t ∷ ts) e =
    let here : str_eq s t ≡ true = ground (arith, e) in
    let head : s ≡ t = (eq_iff s t).0 here in
    let tail : ss ≡ ts = strings_eq_sound ss ts (ground (arith, e)) in rw (head, tail) refl

reference_eq_sound : (a b : BeliefEvidenceReference) → reference_eq a b ≡ true → a ≡ b
reference_eq_sound a b e =
    let id : a.artifact_id ≡ b.artifact_id =
      (eq_iff a.artifact_id b.artifact_id).0 (ground (arith, e)) in
    let hash : a.content_hash ≡ b.content_hash =
      (eq_iff a.content_hash b.content_hash).0 (ground (arith, e)) in
    let kind : a.relationship ≡ b.relationship =
      relationship_value_inj a.relationship b.relationship (ground (arith, e)) in
    ground (arith, id, hash, kind)

references_eq_sound : (a b : List BeliefEvidenceReference) → references_eq a b ≡ true → a ≡ b
references_eq_sound [] [] e = refl
references_eq_sound [] (t ∷ ts) e = absurd (ground (arith, e))
references_eq_sound (s ∷ ss) [] e = absurd (ground (arith, e))
references_eq_sound (s ∷ ss) (t ∷ ts) e =
    let head : s ≡ t = reference_eq_sound s t (ground (arith, e)) in
    let tail : ss ≡ ts = references_eq_sound ss ts (ground (arith, e)) in rw (head, tail) refl

instant_sound : (a b : UtcInstant) → (a.value == b.value) ≡ true → a ≡ b
instant_sound a b e = let value : a.value ≡ b.value = ground (arith, e) in ground (arith, value)

subject_eq_sound : (a b : EquityInstrumentIdentity) → subject_eq a b ≡ true → a ≡ b
subject_eq_sound a b e =
    let namespace : a.catalog_namespace ≡ b.catalog_namespace =
      (eq_iff a.catalog_namespace b.catalog_namespace).0 (ground (arith, e)) in
    let id : a.catalog_id ≡ b.catalog_id =
      (eq_iff a.catalog_id b.catalog_id).0 (ground (arith, e)) in
    let venue : a.listing_venue ≡ b.listing_venue =
      (eq_iff a.listing_venue b.listing_venue).0 (ground (arith, e)) in
    ground (arith, namespace, id, venue)

both : (s t : Bool) → (s && t) ≡ true → (s ≡ true) × (t ≡ true)
both true true e = (refl, refl)
both true false e = absurd (ground (arith, e))
both false t e = absurd (ground (arith, e))

-- Events that `==` holds of are the same event.
pub event_eq_sound : (a b : BeliefEvent) → event_eq a b ≡ true → a ≡ b
unfolding event_eq
event_eq_sound a b e =
    let (e0, q14) = both _ _ e in
    let (e1, q13) = both _ _ e0 in
    let (e2, q12) = both _ _ e1 in
    let (e3, q11) = both _ _ e2 in
    let (e4, q10) = both _ _ e3 in
    let (e5, q9) = both _ _ e4 in
    let (e6, q8) = both _ _ e5 in
    let (e7, q7) = both _ _ e6 in
    let (e8, q6) = both _ _ e7 in
    let (e9, q5) = both _ _ e8 in
    let (e10, q4) = both _ _ e9 in
    let (e11, q3) = both _ _ e10 in
    let (e12, q2) = both _ _ e11 in
    let (e13, q1) = both _ _ e12 in
    rw
      (
        (eq_iff a.event_id b.event_id).0 e13,
        (eq_iff a.belief_id b.belief_id).0 q1,
        subject_eq_sound a.subject b.subject q2,
        claim_kind_eq_sound a.claim_kind b.claim_kind q3,
        (eq_iff a.claim b.claim).0 q4,
        instant_sound a.valid_at b.valid_at q5,
        instant_sound a.transaction_at b.transaction_at q6,
        instant_sound a.evidence_cutoff b.evidence_cutoff q7,
        (eq_iff a.confidence b.confidence).0 q8,
        references_eq_sound a.evidence b.evidence q9,
        strings_eq_sound a.falsifiers b.falsifiers q10,
        status_value_inj a.status b.status q11,
        option_eq_sound a.transition_from_event_id b.transition_from_event_id q12,
        option_eq_sound a.supersedes_event_id b.supersedes_event_id q13,
        (eq_iff a.content_hash b.content_hash).0 q14,
      )
      refl
