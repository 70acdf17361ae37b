-- ===== src/Permissions/Decide.antt =====
-- core/permissions/approvals.py: the decision of a request, its single use and its expiry.
pub mod Release
pub mod Lifecycle
use Prim.Native.String.{◌++◌ as append_text}
use nova_ai_agent.Prelude.{
  ℕ, ◌+◌, String, Bool, true, false, not, ◌&&◌, ◌||◌, Option, none, some, List, [], ◌∷◌, map, ltb,
  leb, if◌then◌else◌, keep,
}
use nova_ai_agent.Exec.{Exec, Result, ok, err, pure, modify, proceed, ◌>>=◌, ◌>>◌}
use nova_ai_agent.Queue.States.{TaskState, retrying, cancelled, is_waiting_approval}
use nova_ai_agent.Db.{
  Task, ApprovalStatus, pending, approved, rejected, expired, used, Approval, user_input_required,
  Db, get_task, find_approval,
}
use nova_ai_agent.Queue.Store.{Action, Field, error_code, transition}
use nova_ai_agent.Permissions.Env.{Env}
use nova_ai_agent.Permissions.Audit.{record_audit}
use nova_ai_agent.Permissions.Approvals.{
  DecisionOutcome, was_approved, was_rejected, was_expired, already_decided, not_found, is_pending,
  has_status, by_nonce, save_approval, send, spaced,
}

-- What `_release_task` makes of a waiting task.
unfoldable pub released_state : DecisionOutcome → TaskState
released_state was_approved = retrying
released_state _ = cancelled

unfoldable pub released_fields : DecisionOutcome → List Field
released_fields was_approved = error_code none ∷ []
released_fields was_rejected = error_code (some "REJECTED_BY_USER") ∷ []
released_fields _ = error_code (some "APPROVAL_EXPIRED") ∷ []

unfoldable pub wake : Db → Db
wake db = record db { woken = true }

unfoldable pub release_row : Option Task → ℕ → DecisionOutcome → Action Unit
unfolding wake
release_row none task_id outcome db = (ok tt, db)
release_row (some t) task_id outcome db =
    if is_waiting_approval t.state
    then (do transition task_id (released_state outcome) (released_fields outcome); modify wake) db
    else (ok tt, db)

-- ApprovalManager._release_task
unfoldable pub release_task : ℕ → DecisionOutcome → Action Unit
unfolding release_row
release_task task_id outcome db = release_row (get_task db task_id) task_id outcome db

unfoldable pub outcome_text : DecisionOutcome → String
outcome_text was_approved = "approved"
outcome_text was_rejected = "rejected"
outcome_text was_expired = "expired"
outcome_text already_decided = "already_decided"
outcome_text not_found = "not_found"

-- The outcome of the transaction of `decide` on the row that it found.
unfoldable pub outcome_of : Approval → Bool → ℕ → DecisionOutcome
unfolding is_pending
outcome_of a approve now =
    if not (is_pending a.status)
    then already_decided
    else if leb a.expires_at now
    then was_expired
    else if approve
    then was_approved
    else was_rejected

-- The row that the transaction leaves.
unfoldable pub decided_row : Env → DecisionOutcome → ℕ → String → Approval → Approval
decided_row env was_approved now by a = record a {
  status = approved;
  decided_at = some now;
  decided_by = some by;
  expires_at = now + env.timeout_seconds;
}
decided_row env was_rejected now by a = record a {
  status = rejected;
  decided_at = some now;
  decided_by = some by;
}
decided_row env was_expired now by a = record a { status = expired }
decided_row env _ now by a = a

unfoldable pub settles : DecisionOutcome → Bool
settles was_approved = true
settles was_rejected = true
settles was_expired = true
settles _ = false

unfoldable pub release_after : Option ℕ → DecisionOutcome → Action Unit
unfolding settles
release_after none outcome = pure tt
release_after (some task_id) outcome =
    if settles outcome then release_task task_id outcome else pure tt

unfoldable pub audit_decision : Env → Approval → DecisionOutcome → String → Db → Db
unfolding outcome_text
audit_decision env a outcome by db =
    record_audit env by (append_text "approval." (outcome_text outcome)) (outcome_text outcome)
      (some (spaced a.action a.target)) a.task_id db

unfoldable pub decide_row : Env → Option Approval → Bool → String → Action DecisionOutcome
decide_row env none approve by db =
    (ok not_found, record_audit env by "approval.decide" "not_found" none none db)
decide_row env (some a) approve by db =
    let outcome = outcome_of a approve db.clock in
    let saved = save_approval (decided_row env outcome db.clock by a) db in
    (do release_after a.task_id outcome; pure outcome) (audit_decision env a outcome by saved)

-- ApprovalManager.decide
unfoldable pub decide : Env → String → Bool → String → Action DecisionOutcome
unfolding decide_row
decide env nonce approve by db = decide_row env (by_nonce nonce db.approvals) approve by db

-- The WHERE clause of `consume`, after the id.
unfoldable pub consumable : ℕ → Approval → Bool
unfolding has_status
consumable now a = has_status a.status approved && ltb now a.expires_at

unfoldable pub consume_row : Option Approval → Db → Bool × Db
unfolding consumable
consume_row none db = (false, db)
consume_row (some a) db =
    if consumable db.clock a
    then (true, save_approval (record a { status = used }) db)
    else (false, db)

-- ApprovalManager.consume
unfoldable pub consume : ℕ → Db → Bool × Db
unfolding consume_row
consume approval_id db = consume_row (find_approval approval_id db.approvals) db

-- The WHERE clause of `expire_due`.
unfoldable pub is_due : ℕ → Approval → Bool
unfolding has_status
is_due now a = (has_status a.status pending || has_status a.status approved) && leb a.expires_at now

unfoldable pub expire_row : ℕ → Approval → Approval
unfolding is_due
expire_row now a = if is_due now a then record a { status = expired } else a

unfoldable pub expire_task : Env → ℕ → Option Task → Action Unit
expire_task env task_id none db = (ok tt, db)
expire_task env task_id (some t) db =
    if is_waiting_approval t.state
    then (do
      release_task task_id was_expired
      modify (
          send env (record { chat_id = t.chat_id; kind = user_input_required; task_id = task_id })))
        db
    else (ok tt, db)

unfoldable pub expire_effects : Env → Approval → Option ℕ → Action Unit
unfolding expire_task
expire_effects env a none db = (ok tt, db)
expire_effects env a (some task_id) db = expire_task env task_id (get_task db task_id) db

unfoldable pub audit_expiry : Env → Approval → Db → Db
audit_expiry env a db =
    record_audit env "system" "approval.expired" "expired" (some (spaced a.action a.target))
      a.task_id db

-- The loop of `expire_due` over the rows that expired.
unfoldable pub expire_each : Env → List Approval → Action Unit
unfolding expire_effects audit_expiry
expire_each env [] = pure tt
expire_each env (a ∷ rest) = do
  modify (audit_expiry env a)
  expire_effects env a a.task_id
  expire_each env rest

-- ApprovalManager.expire_due
unfoldable pub expire_due : Env → Action (List Approval)
unfolding expire_row expire_each
expire_due env db =
    let due = map (expire_row db.clock) (keep (is_due db.clock) db.approvals) in
    (do expire_each env due; pure due)
      (record db { approvals = map (expire_row db.clock) db.approvals })

-- ApprovalManager.pending
unfoldable pub pending_rows : Db → List Approval
unfolding is_pending
pending_rows db = keep (λ a. is_pending a.status) db.approvals

abbrev add_rejected : DecisionOutcome → Approval → List Approval → List Approval
add_rejected was_rejected a rest = a ∷ rest
add_rejected _ a rest = rest

unfoldable pub reject_each : Env → String → List Approval → Action (List Approval)
reject_each env actor [] = pure []
reject_each env actor (a ∷ rest) = do
  outcome ← decide env a.nonce false actor
  others ← reject_each env actor rest
  pure (add_rejected outcome a others)

-- ApprovalManager.reject_all_pending
unfoldable pub reject_all_pending : Env → String → Action (List Approval)
unfolding reject_each pending_rows
reject_all_pending env actor db = reject_each env actor (pending_rows db) db
