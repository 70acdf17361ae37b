-- ===== src/Permissions/Approvals.antt =====
-- core/permissions/approvals.py: ApprovalManager as actions on the database. The nonce that
-- `request` draws at random is an argument, and the column is unique (core/db/models.py). The
-- callbacks on_task_released are the engine's `wake`. Texts shown to the owner are left out.
use Prim.Native.String.{◌++◌ as append_text}
use nova_ai_agent.Prelude.{
  ℕ, suc, ◌+◌, String, Bool, true, false, ◌&&◌, ◌||◌, Option, none, some, List, [], ◌∷◌, ◌++◌, ltb,
  ◌==◌, str_eq, if◌then◌else◌,
}
use nova_ai_agent.Json.{Json, text, obj, Fields, end, field}
use nova_ai_agent.Exec.{ok, err, integrity_error}
use nova_ai_agent.Db.{
  Level, ApprovalStatus, pending, approved, rejected, expired, used, Approval, approval_required,
  Notice, Db, put_approval,
}
use nova_ai_agent.Queue.Store.{Action}
use nova_ai_agent.Permissions.Env.{Env}
use nova_ai_agent.Permissions.Audit.{record_audit}

unfoldable pub is_pending : ApprovalStatus → Bool
is_pending pending = true
is_pending _ = false

unfoldable pub has_status : ApprovalStatus → ApprovalStatus → Bool
has_status pending pending = true
has_status approved approved = true
has_status rejected rejected = true
has_status expired expired = true
has_status used used = true
has_status _ _ = false

pub data DecisionOutcome : Type 0 where
  was_approved was_rejected was_expired already_decided not_found : DecisionOutcome

abbrev or_end : Option Fields → Fields
or_end none = end
or_end (some fs) = fs

-- fingerprint(action, target, details)
unfoldable pub fingerprint : Env → String → String → Option Fields → String
fingerprint env action target details =
    env.digest (
      obj
        (field "a" (text action) (field "t" (text target) (field "d" (obj (or_end details)) end))))

unfoldable pub text_in : String → List String → Bool
text_in s [] = false
text_in s (x ∷ xs) = str_eq x s || text_in s xs

abbrev pub secret_actions : List String
secret_actions = "browser.fill_secret" ∷ "ui.type_secret" ∷ []

abbrev pub secret_keys : List String
secret_keys = "text" ∷ "value" ∷ "password" ∷ "secret" ∷ "token" ∷ []

abbrev redacted_value : Env → Json → Json
redacted_value env (text s) = text (env.redact s)
redacted_value env v = v

-- stored_details(action, details)
unfoldable pub stored_fields : Env → String → Fields → Fields
unfolding text_in
stored_fields env action end = end
stored_fields env action (field k v rest) =
    field k
      (if text_in action secret_actions && text_in (env.lower k) secret_keys
        then text "***REDACTED***"
        else redacted_value env v)
      (stored_fields env action rest)

unfoldable pub stored_details : Env → String → Option Fields → Fields
stored_details env action details = stored_fields env action (or_end details)

abbrev is_task : Option ℕ → ℕ → Bool
is_task none task_id = false
is_task (some i) task_id = i == task_id

-- The rows that `find` accepts.
unfoldable pub usable : ℕ → String → ApprovalStatus → ℕ → Approval → Bool
unfolding has_status
usable task_id fp status now a =
    (is_task a.task_id task_id && has_status a.status status)
    && (str_eq a.fingerprint fp && ltb now a.expires_at)

unfoldable pub first_usable : ℕ → String → ApprovalStatus → ℕ → List Approval → Option Approval
first_usable task_id fp status now [] = none
first_usable task_id fp status now (a ∷ rest) =
    if usable task_id fp status now a then some a else first_usable task_id fp status now rest

-- ApprovalManager.find
unfoldable pub find : ℕ → String → ApprovalStatus → Db → Option Approval
find task_id fp status db = first_usable task_id fp status db.clock db.approvals

-- s.scalars(select(Approval).where(Approval.nonce == nonce)).first()
unfoldable pub by_nonce : String → List Approval → Option Approval
by_nonce n [] = none
by_nonce n (a ∷ rest) = if str_eq a.nonce n then some a else by_nonce n rest

abbrev pub save_approval : Approval → Db → Db
save_approval a db = record db { approvals = put_approval a db.approvals }

abbrev pub send : Env → Notice → Db → Db
send env notice db =
    if env.has_notifier then record db { notices = db.notices ++ notice ∷ [] } else db

abbrev pub spaced : String → String → String
spaced a b = append_text a (append_text " " b)

-- The row that `request` adds, for one call's arguments.
abbrev pub requested_row :
    Env → ℕ → Level → (action target summary nonce : String) → Option Fields → Db → Approval
requested_row env task_id level action target summary nonce details db = record {
  id = db.next_approval;
  task_id = some task_id;
  action = action;
  level = level;
  status = pending;
  nonce = nonce;
  target = target;
  summary = summary;
  fingerprint = fingerprint env action target details;
  details = stored_details env action details;
  expires_at = db.clock + env.timeout_seconds;
  decided_at = none;
  decided_by = none;
}

unfoldable pub add_request : Env → ℕ → String → Approval → Action Approval
add_request env task_id chat_id a db =
    let added = record db { approvals = db.approvals ++ a ∷ []; next_approval = suc a.id } in
    let audited =
      record_audit env "system" "approval.request" "pending" (some (spaced a.action a.target))
        (some task_id) added in
    (
      ok a,
      send env (record { chat_id = chat_id; kind = approval_required; task_id = task_id }) audited,
    )

-- The insertion of `request`: a nonce that is taken breaks the unique constraint.
unfoldable pub request_new : Env → ℕ → String → Option Approval → Approval → Action Approval
unfolding add_request
request_new env task_id chat_id none a db = add_request env task_id chat_id a db
request_new env task_id chat_id (some taken) a db = (err integrity_error, db)

unfoldable pub request_unless : Env → ℕ → String → Option Approval → Approval → Action Approval
unfolding request_new
request_unless env task_id chat_id (some existing) a db = (ok existing, db)
request_unless env task_id chat_id none a db =
    request_new env task_id chat_id (by_nonce a.nonce db.approvals) a db

-- ApprovalManager.request
unfoldable pub request :
    Env
    → ℕ
    → String
    → Level
    → (action target summary nonce : String) → Option Fields
    → Action Approval
unfolding request_unless
request env task_id chat_id level action target summary nonce details db =
    request_unless env task_id chat_id
      (find task_id (fingerprint env action target details) pending db)
      (requested_row env task_id level action target summary nonce details db) db
