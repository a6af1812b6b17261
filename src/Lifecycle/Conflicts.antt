-- ===== src/Lifecycle/Conflicts.antt =====
-- Keys of completed runs that are used again, in domain/lifecycle.py.
use agentic_investment_os.Prelude.{
  ◌≡◌, refl, true, false, Option, none, some, List, [], ◌∷◌, ◌++◌, String, str_eq, eq_refl, eq_iff,
  ◌∙◌, append_assoc, Bool-cases, ok, arith, inl, inr,
}
use agentic_investment_os.Temporal.{UtcInstant}
use agentic_investment_os.Scheduler.Policy.{MarketSession}
use agentic_investment_os.Lifecycle.Reason.{AdvanceFailureReason, same_reason}
use agentic_investment_os.Lifecycle.Stream.{LifecycleProgress}
use agentic_investment_os.Lifecycle.Receipt.{AdvanceReceipt, failed_closed}
use agentic_investment_os.Lifecycle.Refusal.{return_receipt}
use agentic_investment_os.Lifecycle.History.{
  LifecycleHistory, DurableAdvanceConflict, conflict_record, append, is_complete, find_progress,
  is_text_in, completed_stream, conflicts_from, validate_conflicts,
}
use agentic_investment_os.Lifecycle.Decision.{refuse, append_conflict}
use agentic_investment_os.Lifecycle.Decide.{
  find_conflict, answer_conflict, refuse_bare, decide_idempotency_conflict,
}

find_conflict-append :
    (key : String) (cs : List DurableAdvanceConflict) (c : DurableAdvanceConflict)
    (more : List DurableAdvanceConflict)
    → find_conflict key cs ≡ none
    → str_eq c.idempotency_key key ≡ true
    → find_conflict key (cs ++ c ∷ more) ≡ some c
unfolding find_conflict
find_conflict-append key [] c more absent own = rw own refl
find_conflict-append key (x ∷ cs) c more absent own =
    ground (arith, find_conflict-append key cs c more, own)

-- What a conflict that was appended is known to be.
record IsNewConflict (history : LifecycleHistory) (key : String) (cycle : Option MarketSession)
    (c : DurableAdvanceConflict) (receipt : AdvanceReceipt) : Type 0 where
  absent : find_conflict key history.conflicts ≡ none
  own_key : c.idempotency_key ≡ key
  own_reason : c.reason ≡ AdvanceFailureReason.idempotency_key_conflict
  closed :
      failed_closed AdvanceFailureReason.idempotency_key_conflict cycle none none none ≡ ok receipt

answer_conflict-IsNewConflict :
    (history : LifecycleHistory) (key : String) (cycle : Option MarketSession)
    (c : DurableAdvanceConflict) (receipt : AdvanceReceipt) (found : Option DurableAdvanceConflict)
    → find_conflict key history.conflicts ≡ found
    → answer_conflict key cycle found ≡ ok (append_conflict c receipt)
    → IsNewConflict history key cycle c receipt
unfolding answer_conflict
answer_conflict-IsNewConflict history key cycle c receipt none found e = ground (arith, found, e)
answer_conflict-IsNewConflict history key cycle c receipt (some other) found e =
    absurd (ground (arith, e))

conflict_complete :
    (history : LifecycleHistory) (p : LifecycleProgress) (key : String)
    (cycle : Option MarketSession) (at : UtcInstant) (c : DurableAdvanceConflict)
    (receipt : AdvanceReceipt)
    → decide_idempotency_conflict history p key cycle at ≡ ok (append_conflict c receipt)
    → is_complete p ≡ true
unfolding decide_idempotency_conflict refuse_bare
conflict_complete history p key cycle at c receipt decided = ground (arith, decided)

-- Where another request uses the key of a completed run and its conflict was made durable, the same
-- use of the key is answered by the same receipt, and nothing more is appended, on every later history
-- whose conflicts begin with those of the append.
pub conflict_then_replay :
    (history later : LifecycleHistory) (p : LifecycleProgress) (key : String)
    (cycle : Option MarketSession) (at again : UtcInstant) (c : DurableAdvanceConflict)
    (receipt : AdvanceReceipt) (more : List DurableAdvanceConflict)
    → decide_idempotency_conflict history p key cycle at ≡ ok (append_conflict c receipt)
    → later.conflicts ≡ (append history (conflict_record c)).conflicts ++ more
    → decide_idempotency_conflict later p key cycle again ≡ ok (refuse (return_receipt receipt))
unfolding decide_idempotency_conflict append
conflict_then_replay history later p key cycle at again c receipt more decided grown =
    let complete = conflict_complete history p key cycle at c receipt decided in
    let asked : answer_conflict key cycle (find_conflict key history.conflicts)
        ≡ ok (append_conflict c receipt) =
      ground (arith, decided, complete) in
    let w =
      answer_conflict-IsNewConflict history key cycle c receipt
        (find_conflict key history.conflicts) refl asked in
    let own : str_eq c.idempotency_key key ≡ true = rw w.own_key (eq_refl key) in
    let flat : later.conflicts ≡ history.conflicts ++ c ∷ more =
      grown ∙ append_assoc history.conflicts (c ∷ []) more in
    rw (complete, flat, find_conflict-append key history.conflicts c more w.absent own)
      (unfold answer_conflict in rw (w.own_reason, w.closed) refl)

str_eq_comm : (s t : String) → str_eq s t ≡ str_eq t s
str_eq_comm s t = elim (Bool-cases (str_eq s t)) [
  | inl same ↦ let e : s ≡ t = (eq_iff s t).0 same in rw e refl
  | inr differ ↦ elim (Bool-cases (str_eq t s)) [
    | inl same ↦ let e : t ≡ s = (eq_iff t s).0 same in rw e refl
    | inr other ↦ rw (differ, other) refl
  ]
]

conflicts_from-snoc :
    (ps : List LifecycleProgress) (keys : List String) (cs : List DurableAdvanceConflict)
    (c : DurableAdvanceConflict)
    → conflicts_from ps keys cs ≡ true
    → is_text_in c.idempotency_key keys ≡ false
    → find_conflict c.idempotency_key cs ≡ none
    → conflicts_from ps [] (c ∷ []) ≡ true
    → conflicts_from ps keys (cs ++ c ∷ []) ≡ true
unfolding conflicts_from find_conflict
conflicts_from-snoc ps keys [] c valid fresh absent own = ground (arith, fresh, own)
conflicts_from-snoc ps keys (x ∷ cs) c valid fresh absent own = ground (
  arith,
  valid,
  fresh,
  absent,
  str_eq_comm c.idempotency_key x.idempotency_key,
  conflicts_from-snoc ps (x.idempotency_key ∷ keys) cs c,
)

-- A conflict that is made durable for the key of a completed stream is one that the reconstruction of
-- the history accepts after the conflicts before it.
pub conflict-accepted :
    (history : LifecycleHistory) (ps : List LifecycleProgress) (p : LifecycleProgress)
    (key : String) (cycle : Option MarketSession) (at : UtcInstant) (c : DurableAdvanceConflict)
    (receipt : AdvanceReceipt)
    → validate_conflicts history.conflicts ps ≡ true
    → find_progress key ps ≡ some p
    → decide_idempotency_conflict history p key cycle at ≡ ok (append_conflict c receipt)
    → validate_conflicts (append history (conflict_record c)).conflicts ps ≡ true
unfolding validate_conflicts append decide_idempotency_conflict
conflict-accepted history ps p key cycle at c receipt valid found decided =
    let complete : is_complete p ≡ true =
      conflict_complete history p key cycle at c receipt decided in
    let asked : answer_conflict key cycle (find_conflict key history.conflicts)
        ≡ ok (append_conflict c receipt) =
      ground (arith, decided, complete) in
    let w =
      answer_conflict-IsNewConflict history key cycle c receipt
        (find_conflict key history.conflicts) refl asked in
    let absent : find_conflict c.idempotency_key history.conflicts ≡ none = rw w.own_key w.absent in
    let own_stream : find_progress c.idempotency_key ps ≡ some p = rw w.own_key found in
    let same : same_reason c.reason AdvanceFailureReason.idempotency_key_conflict ≡ true =
      rw w.own_reason refl in
    let completed : completed_stream (find_progress c.idempotency_key ps) ≡ true =
      rw own_stream complete in
    conflicts_from-snoc ps [] history.conflicts c valid refl absent
      (unfold conflicts_from in ground (arith, same, completed))
