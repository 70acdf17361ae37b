-- ===== src/Broker/Server.antt =====
-- workers/privileged-broker/nova_broker/server.py: Broker.handle. A message is what json.loads made of
-- it, or none. What stands in files (the token, the lockdown flag, the ledger, Nova's table of
-- approvals) is a snapshot that the call reads. `escaped` is an exception that leaves `handle`. The
-- pipe, its security descriptor, log lines and the texts of replies are left out.
pub mod Cleared
pub mod Authority
pub mod Machine
use nova_ai_agent.Prelude.{
  ℕ, String, Bool, true, false, not, ◌&&◌, ◌||◌, Option, none, some, List, [], leb, ◌==◌, chars,
  str_eq, if◌then◌else◌,
}
use nova_ai_agent.Json.{Json, null, flag, num, text, arr, obj, nil, Fields, end, get_field}
use nova_ai_agent.Exec.{Exc, policy_denied, Exec, Result, ok, err}
use nova_ai_agent.Db.{Approval}
use nova_ai_agent.Permissions.Env.{Env}
use nova_ai_agent.Broker.Texts.{is_request_id, is_number}
use nova_ai_agent.Broker.Ops.{
  Policy, Op, op_power, text_at, Check, checked, not_allowed, bad_params, validate, required_action,
}
use nova_ai_agent.Broker.Handlers.{Backend, Text, handler}
use nova_ai_agent.Broker.Approvals.{claim}

pub data ErrorCode : Type 0 where
  bad_request unauthorized protocol_mismatch bad_parameters action_not_allowed locked_down :
      ErrorCode
  approval_required not_elevated action_failed : ErrorCode

pub data Reply : Type 0 where
  pong status_reply : Reply
  lockdown_reply : (on : Bool) → Reply
  refused : ErrorCode → Reply
  escaped : Reply
  done : (approval_id : Option ℕ) → Reply

-- Broker, with the files that it owns or reads: `token_file` is the time and the content of the token's
-- file, or none when it cannot be read.
pub record Broker : Type 0 where
  pub policy : Policy
  pub elevated : Bool
  pub locked : Bool
  pub ledger : List ℕ
  pub token : Option (ℕ × String)
  pub token_file : Option (ℕ × String)
  pub approvals : List Approval
  pub now : ℕ

-- The cached token, read again when the time of the file has changed.
unfoldable pub current_token : Option (ℕ × String) → Option (ℕ × String) → Option (ℕ × String)
current_token cached none = none
current_token none (some (mtime, content)) = some (mtime, content)
current_token (some (at, kept)) (some (mtime, content)) =
    if at == mtime then some (at, kept) else some (mtime, content)

abbrev pub is_token : Option (ℕ × String) → String → Bool
is_token none presented = false
is_token (some (at, real)) presented = leb 32 (chars real) && str_eq presented real

abbrev newer : Option (ℕ × String) → Option (ℕ × String) → Option (ℕ × String)
newer none cached = cached
newer (some t) cached = some t

-- Broker._token_ok
unfoldable pub token_ok : String → Broker → Bool × Broker
unfolding current_token
token_ok presented b =
    let t = current_token b.token b.token_file in
    (is_token t presented, record b { token = newer t b.token })

-- The value of a key as a text: str(req.get(key, "")). `show` is str of a value that is not a text.
abbrev pub text_of : (Json → String) → Option Json → String
text_of show none = ""
text_of show (some (text s)) = s
text_of show (some v) = show v

-- req.get("params") or {}
abbrev pub or_empty : Option Json → Json
or_empty none = obj end
or_empty (some null) = obj end
or_empty (some (flag false)) = obj end
or_empty (some (num n)) = if n == 0 then obj end else num n
or_empty (some (text s)) = if str_eq s "" then obj end else text s
or_empty (some (arr nil)) = obj end
or_empty (some v) = v

-- A number that is equal to the version: True is 1.
abbrev pub is_version : ℕ → Option Json → Bool
is_version n (some (num m)) = m == n
is_version n (some (flag true)) = n == 1
is_version n (some (flag false)) = n == 0
is_version n _ = false

abbrev pub is_id : Option Json → Bool
is_id (some (text s)) = is_request_id s
is_id _ = false

abbrev pub is_task_id : String → Bool
is_task_id s = str_eq s "system" || is_number s

abbrev pub is_on : Option Json → Bool
is_on (some (flag b)) = b
is_on _ = false

-- A request that may run, or the answer to one that may not.
pub data Admission : Type 0 where
  answered : Reply → Admission
  admitted : Op → Fields → (approval_id : Option ℕ) → Admission

abbrev pub is_cancel : Op → Fields → Bool
is_cancel op_power params = str_eq (text_at "op" params) "cancel"
is_cancel _ params = false

module _ (env : Env) (show : Json → String) where
  -- The elevation, after the claim.
  unfoldable pub check_elevation :
      Op → Fields → Option String → Option ℕ → Broker → Admission × Broker
  check_elevation op params none approval_id b = (admitted op params approval_id, b)
  check_elevation op params (some action) approval_id b =
      if b.policy.require_elevation && not b.elevated
      then (answered (refused not_elevated), b)
      else (admitted op params approval_id, b)

  unfoldable pub after_claim :
      Op → Fields → String → Option ℕ × List ℕ → Broker → Admission × Broker
  unfolding check_elevation
  after_claim op params action (none, ledger) b =
      (answered (refused approval_required), record b { ledger = ledger })
  after_claim op params action (some i, ledger) b =
      check_elevation op params (some action) (some i) (record b { ledger = ledger })

  unfoldable pub check_approval :
      String → String → Op → Fields → Option String → Broker → Admission × Broker
  unfolding after_claim
  check_approval task target op params none b = check_elevation op params none none b
  check_approval task target op params (some action) b =
      after_claim op params action
        (claim env b.policy.approval_max_age_seconds b.now b.approvals task action target params
          b.ledger)
        b

  unfoldable pub check_operation : String → String → Fields → Check → Broker → Admission × Broker
  unfolding check_approval
  check_operation task target params not_allowed b = (answered (refused action_not_allowed), b)
  check_operation task target params bad_params b = (answered (refused bad_parameters), b)
  check_operation task target params (checked op) b =
      if b.locked && not (is_cancel op params)
      then (answered (refused locked_down), b)
      else check_approval task target op params (required_action op params) b

  unfoldable pub check_params : String → String → String → Json → Broker → Admission × Broker
  unfolding check_operation
  check_params task target op (obj params) b =
      check_operation task target params (validate op params) b
  check_params task target op _ b = (answered (refused bad_parameters), b)

  unfoldable pub set_lockdown : Json → Broker → Admission × Broker
  set_lockdown (obj params) b =
      let on = is_on (get_field "on" params) in
      (answered (lockdown_reply on), record b { locked = on })
  set_lockdown _ b = (answered escaped, b)

  unfoldable pub by_operation : String → String → String → Json → Broker → Admission × Broker
  unfolding check_params set_lockdown
  by_operation task target op params b =
      if str_eq op "ping"
      then (answered pong, b)
      else if str_eq op "status"
      then (answered status_reply, b)
      else if str_eq op "lockdown"
      then set_lockdown params b
      else check_params task target op params b

  -- The checks of the request's ids and version.
  unfoldable pub check_request : Fields → Broker → Admission × Broker
  unfolding by_operation
  check_request req b =
      if not (is_id (get_field "request_id" req))
        || not (is_task_id (text_of show (get_field "task_id" req)))
      then (answered (refused bad_request), b)
      else if not (is_version b.policy.protocol_version (get_field "protocol_version" req))
      then (answered (refused protocol_mismatch), b)
      else by_operation (text_of show (get_field "task_id" req))
          (text_of show (get_field "target" req)) (text_of show (get_field "action" req))
          (or_empty (get_field "params" req)) b

  unfoldable pub admit_token : Fields → Bool × Broker → Admission × Broker
  unfolding check_request
  admit_token req (false, b) = (answered (refused unauthorized), b)
  admit_token req (true, b) = check_request req b

  -- All of `handle` before the operation runs.
  unfoldable pub admit : Option Json → Broker → Admission × Broker
  unfolding admit_token token_ok
  admit (some (obj req)) b = admit_token req (token_ok (text_of show (get_field "token" req)) b)
  admit _ b = (answered (refused bad_request), b)

abbrev pub reply_to : Result (Unit {0}) → Option ℕ → Reply
reply_to (ok u) approval_id = done approval_id
reply_to (err (policy_denied m)) approval_id = refused action_not_allowed
reply_to (err e) approval_id = refused action_failed

module _ {W : Type 0} (be : Backend W) (tx : Text) where
  unfoldable pub run_admitted : Policy → Admission × Broker → W → (Reply × Broker) × W
  run_admitted policy (answered reply, b) w = ((reply, b), w)
  run_admitted policy (admitted op params approval_id, b) w =
      let (r, w') = handler be tx policy op params w in ((reply_to r approval_id, b), w')

  -- Broker.handle
  unfoldable pub handle : Env → (Json → String) → Option Json → Broker → W → (Reply × Broker) × W
  unfolding admit run_admitted
  handle env show request b w = run_admitted b.policy (admit env show request b) w
