-- ===== src/Tests/Brokered.antt =====
-- The theorems on the privileged broker, at concrete inputs.
use nova_ai_agent.Prelude.{◌≢◌, refl, String, true, false, none, some, List, [], ◌∷◌, All, arith}
use nova_ai_agent.Json.{Json, num, text, obj, Fields, end, field, get_field}
use nova_ai_agent.Exec.{ok}
use nova_ai_agent.Db.{used, Approval}
use nova_ai_agent.Permissions.Approvals.{fingerprint}
use nova_ai_agent.Broker.Texts.{is_number, number_of, is_request_id, leading_digits}
use nova_ai_agent.Broker.Ops.{Policy, op_power, op_named, validate, required_action}
use nova_ai_agent.Broker.Handlers.{Backend, Text}
use nova_ai_agent.Broker.Handlers.Fixed.{Fixed, Safe}
use nova_ai_agent.Broker.Approvals.{claim, accepts, is_candidate, newest}
use nova_ai_agent.Broker.Approvals.Single.{Request, claim_for, claim_all, claim_once}
use nova_ai_agent.Broker.Server.{Broker, admit, handle, check_request, token_ok}
use nova_ai_agent.Broker.Server.Authority.{Authority, admit-Authority}
use nova_ai_agent.Broker.Server.Machine.{handle-keeps}
use nova_ai_agent.Tests.Sample.{approval, env}

abbrev restart_approval : Approval
restart_approval = record (approval 1 used "digest") {
  action = "system.restart";
  decided_at = some 8;
  decided_by = some "owner";
}

abbrev policy : Policy
policy = record {
  protocol_version = 1;
  services = [];
  tasks = [];
  winget = "";
  approval_max_age_seconds = 900;
  require_elevation = true;
}

abbrev token : String
token = "0123456789012345678901234567890123456789"

abbrev broker : Broker
broker = record {
  policy = policy;
  elevated = true;
  locked = false;
  ledger = [];
  token = none;
  token_file = some (1, token);
  approvals = restart_approval ∷ [];
  now = 10;
}

abbrev params : Fields
params = field "op" (text "restart") (field "delay_seconds" (num 120) end)

abbrev message : Fields
message = field "protocol_version" (num 1) (
    field "request_id" (text "req-00001") (
      field "task_id" (text "3") (
        field "token" (text token) (
          field "action" (text "power")
            (field "target" (text "pc") (field "params" (obj params) end))))))

abbrev show : Json → String
show v = "?"

abbrev restart : Request
restart = record {
  now = 10;
  rows = restart_approval ∷ [];
  task_id = "3";
  action = "system.restart";
  target = "pc";
  details = params;
}

claim_once_example :
    (claim_for env 900 restart
      (claim_all env 900 (restart ∷ []) (claim_for env 900 restart []).1)).0
    ≢ some 1
unfolding claim newest accepts is_candidate is_number number_of leading_digits fingerprint
claim_once_example = claim_once env 900 restart [] 1 (restart ∷ []) restart refl (omega arith)

admit-Authority_example : Authority env show message broker op_power params (some 1)
unfolding admit check_request token_ok validate op_named required_action claim newest accepts
    is_candidate is_number number_of leading_digits get_field is_request_id fingerprint
admit-Authority_example = admit-Authority env show message broker op_power params (some 1) refl

abbrev Log : Type 0
Log = List (List String)

abbrev backend : Backend Log
backend = record {
  run = λ argv w. ((some 0, ""), argv ∷ w);
  service_state = λ name w. (ok "running", w);
  service_control = λ name op w. (ok tt, w);
  sys_exe = λ name. name;
}

abbrev words : Text
words = record {
  lower = λ s. s;
  contains = λ a b. true;
  split_lines = λ s. [];
  decimal = λ n. "120";
}

logged : Safe backend words policy (All (Fixed backend words policy))
logged = record {
  programs = λ argv f. record { at = λ w h. (f, h) };
  state = λ name. record { at = λ w h. h };
  control = λ key name op e. record { at = λ w h. h };
}

handle-keeps_example :
    All
      (Fixed backend words policy)
      (handle backend words env show (some (obj message)) broker []).1
handle-keeps_example =
    handle-keeps backend words env show (some (obj message)) broker []
      (All (Fixed backend words policy)) logged tt
