-- ===== src/Lifecycle/Replay.antt =====
-- Requests of domain/lifecycle.py that are repeated after their refusal became durable.
use agentic_investment_os.Prelude.{
  ℕ, ◌≡◌, refl, ap, ◌∙◌, true, false, Option, none, some, List, [], ◌∷◌, ◌++◌, String, ok, eq_refl,
  arith, Bool-cases, inl, inr, >>=-eq-ok,
}
use agentic_investment_os.Temporal.{UtcInstant}
use agentic_investment_os.Scheduler.Policy.{MarketSession}
use agentic_investment_os.Lifecycle.Reason.{
  AdvanceFailureReason, AttentionRefusalReason, DecisionPublicationRefusalReason, same_reason,
  reason_value, input_failure_reason, is_input_failure_reason,
}
use agentic_investment_os.Lifecycle.Checkpoint.{EvidenceCaptureCheckpoint, ResearchRefusal}
use agentic_investment_os.Lifecycle.Command.{AdvanceCommand}
use agentic_investment_os.Lifecycle.Receipt.{AdvanceReceipt, failed_closed}
use agentic_investment_os.Lifecycle.Refusal.{
  InputRefusal, advance_command, input_refusal, DurableAdvanceRefusal, append_terminal, same_key,
  equal_cycles, find_refusal, repeats, find_input_refusal, replay_advance, replay_input,
  decide_terminal_refusal, append_refusal, append_bare_refusal,
}

same_key_refl : (k : Option String) → same_key k k ≡ true
same_key_refl none = refl
same_key_refl (some s) = eq_refl s

equal_cycles_refl : (c : Option MarketSession) → equal_cycles c c ≡ true
equal_cycles_refl none = refl
equal_cycles_refl (some c) = ground arith

same_reason_refl : (r : AdvanceFailureReason) → same_reason r r ≡ true
same_reason_refl r = eq_refl (reason_value r)

find_refusal-append :
    (key : String) (rs : List DurableAdvanceRefusal) (r : DurableAdvanceRefusal)
    (more : List DurableAdvanceRefusal)
    → find_refusal key rs ≡ none
    → same_key r.idempotency_key (some key) ≡ true
    → find_refusal key (rs ++ r ∷ more) ≡ some r
unfolding find_refusal
find_refusal-append key [] r more absent own = rw own refl
find_refusal-append key (x ∷ rs) r more absent own =
    ground (arith, find_refusal-append key rs r more, own)

find_input_refusal-append :
    (c : InputRefusal) (rs : List DurableAdvanceRefusal) (r : DurableAdvanceRefusal)
    (more : List DurableAdvanceRefusal)
    → find_input_refusal c rs ≡ none
    → repeats c r ≡ true
    → find_input_refusal c (rs ++ r ∷ more) ≡ some r
unfolding find_input_refusal
find_input_refusal-append c [] r more absent own = rw own refl
find_input_refusal-append c (x ∷ rs) r more absent own =
    ground (arith, find_input_refusal-append c rs r more, own)

-- An advance request that no refusal answered, and whose refusal for a reason that no input has was
-- made durable under its key and session, is answered by `decide_terminal_refusal` with the receipt of
-- that refusal, whatever refusals are made durable after it.
pub advance_refusal_replayed :
    (rs : List DurableAdvanceRefusal) (next : Option ℕ) (c : AdvanceCommand)
    (reason : AdvanceFailureReason) (at : UtcInstant) (evidence : Option EvidenceCaptureCheckpoint)
    (attention : Option AttentionRefusalReason) (research : Option ResearchRefusal)
    (publication : Option DecisionPublicationRefusalReason) (r : DurableAdvanceRefusal)
    (receipt : AdvanceReceipt) (more : List DurableAdvanceRefusal)
    → find_refusal c.request.idempotency_key rs ≡ none
    → is_input_failure_reason reason ≡ false
    → append_refusal rs next
        (some c.request.idempotency_key)
        reason
        at
        (some c.request.session)
        evidence
        attention
        research
        publication
      ≡ ok (append_terminal r receipt)
    → decide_terminal_refusal (rs ++ r ∷ more) (advance_command c) ≡ ok (some receipt)
unfolding decide_terminal_refusal replay_advance append_refusal
advance_refusal_replayed rs next c reason at evidence attention research publication r receipt more
      absent not_input e =
    let (made, closed, out) =
      >>=-eq-ok (failed_closed reason (some c.request.session) evidence attention research) _ e in
    let same_receipt : made ≡ receipt = ground (arith, out) in
    let cycle : equal_cycles r.cycle (some c.request.session) ≡ true =
      ground (arith, out, equal_cycles_refl (some c.request.session)) in
    let key : same_key r.idempotency_key (some c.request.idempotency_key) ≡ true =
      ground (arith, out, same_key_refl (some c.request.idempotency_key)) in
    let input : is_input_failure_reason r.reason ≡ false = ground (arith, out, not_input) in
    let again : failed_closed r.reason (some c.request.session) r.evidence_capture
          r.attention_refusal_reason r.research_refusal
        ≡ ok receipt =
      ground (arith, out, closed, same_receipt) in
    rw (find_refusal-append c.request.idempotency_key rs r more absent key, cycle, input, again)
      refl

-- An input refusal that no durable refusal answered, and whose own refusal was then made durable, is
-- answered by `decide_terminal_refusal` with the receipt of that refusal, with a key and without one,
-- whatever refusals are made durable after it.
pub input_refusal_replayed :
    (rs : List DurableAdvanceRefusal) (next : Option ℕ) (c : InputRefusal) (at : UtcInstant)
    (r : DurableAdvanceRefusal) (receipt : AdvanceReceipt) (more : List DurableAdvanceRefusal)
    → find_input_refusal c rs ≡ none
    → append_bare_refusal rs next c.idempotency_key (input_failure_reason c.code) at c.cycle
      ≡ ok (append_terminal r receipt)
    → decide_terminal_refusal (rs ++ r ∷ more) (input_refusal c) ≡ ok (some receipt)
unfolding decide_terminal_refusal replay_input append_refusal
input_refusal_replayed rs next c at r receipt more absent e =
    let reason = input_failure_reason c.code in
    let (made, closed, out) = >>=-eq-ok (failed_closed reason c.cycle none none none) _ e in
    let same_receipt : made ≡ receipt = ground (arith, out) in
    let own_reason : r.reason ≡ reason = ground (arith, out) in
    let own_cycle : r.cycle ≡ c.cycle = ground (arith, out) in
    let own_key : r.idempotency_key ≡ c.idempotency_key = ground (arith, out) in
    let cycle : equal_cycles r.cycle c.cycle ≡ true = rw own_cycle (equal_cycles_refl c.cycle) in
    let key : same_key r.idempotency_key c.idempotency_key ≡ true =
      rw own_key (same_key_refl c.idempotency_key) in
    let same : same_reason r.reason reason ≡ true = rw own_reason (same_reason_refl reason) in
    let again : failed_closed reason c.cycle none none none ≡ ok receipt =
      closed ∙ ap ok same_receipt in
    let again_r : failed_closed r.reason c.cycle none none none ≡ ok receipt =
      rw own_reason again in
    let repeated : repeats c r ≡ true = ground (arith, cycle, key, same) in
    let found = find_input_refusal-append c rs r more absent repeated in
    elim (Bool-cases (same_reason reason AdvanceFailureReason.invalid_durable_state)) [
      | inl durable ↦ rw (found, cycle) (ground (arith, durable, again))
      | inr other ↦ rw (found, cycle) (ground (arith, other, same, again_r))
    ]
