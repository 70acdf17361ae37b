-- ===== src/Broker/Ops.antt =====
-- workers/privileged-broker/nova_broker/ops.py and policy.py: the operations with their exact
-- parameters, and the permission action that each needs. The texts of errors are left out.
pub mod Needs
use nova_ai_agent.Prelude.{
  ℕ, String, Bool, true, false, not, ◌&&◌, ◌||◌, Option, none, some, List, [], ◌∷◌, leb, str_eq,
  if◌then◌else◌,
}
use nova_ai_agent.Json.{Json, num, text, Fields, end, field, get_field}
use nova_ai_agent.Permissions.Approvals.{text_in}
use nova_ai_agent.Broker.Texts.{is_service_name, is_rule_name, is_package_id, port_range}

pub record Policy : Type 0 where
  pub protocol_version : ℕ
  pub services : List (String × String)
  pub tasks : List (String × List String)
  pub winget : String
  pub approval_max_age_seconds : ℕ
  pub require_elevation : Bool

-- The types of parameters, str and int.
pub data Kind : Type 0 where
  str int : Kind

pub data Op : Type 0 where
  op_status op_service op_firewall op_package op_power op_task : Op

unfoldable pub op_named : String → Option Op
op_named s =
    if str_eq s "status"
    then some op_status
    else if str_eq s "service"
    then some op_service
    else if str_eq s "firewall"
    then some op_firewall
    else if str_eq s "package"
    then some op_package
    else if str_eq s "power"
    then some op_power
    else if str_eq s "task"
    then some op_task
    else none

-- SPECS: the keys of an operation.
abbrev pub keys : Op → List (String × Kind)
keys op_status = []
keys op_service = ("name", str) ∷ ("op", str) ∷ []
keys op_firewall =
    ("op", str)
    ∷ ("name", str)
    ∷ ("direction", str)
    ∷ ("rule_action", str)
    ∷ ("protocol", str)
    ∷ ("port", str)
    ∷ []
keys op_package = ("op", str) ∷ ("id", str) ∷ []
keys op_power = ("op", str) ∷ ("delay_seconds", int) ∷ []
keys op_task = ("name", str) ∷ []

-- params[key] of a parameter that is a text, and of one that is a number.
abbrev as_text : Option Json → String
as_text (some (text s)) = s
as_text _ = ""

unfoldable pub text_at : String → Fields → String
text_at key params = as_text (get_field key params)

abbrev as_number : Option Json → ℕ
as_number (some (num n)) = n
as_number _ = 0

unfoldable pub number_at : String → Fields → ℕ
number_at key params = as_number (get_field key params)

-- SPECS: the permission action that an operation needs, and none when it needs no approval.
unfoldable pub required_action : Op → Fields → Option String
unfolding text_at
required_action op_status p = none
required_action op_service p =
    if str_eq (text_at "op" p) "query" then none else some "admin.service_control"
required_action op_firewall p =
    if str_eq (text_at "op" p) "list" then none else some "admin.firewall"
required_action op_package p =
    if str_eq (text_at "op" p) "install"
    then some "admin.package_install"
    else if str_eq (text_at "op" p) "uninstall"
    then some "admin.package_uninstall"
    else some "?"
required_action op_power p =
    if str_eq (text_at "op" p) "restart"
    then some "system.restart"
    else if str_eq (text_at "op" p) "shutdown"
    then some "system.shutdown"
    else none
required_action op_task p = some "admin.task"

unfoldable pub key_there : String → List (String × Kind) → Bool
key_there k [] = false
key_there k ((j, t) ∷ rest) = str_eq j k || key_there k rest

unfoldable pub all_known : Fields → List (String × Kind) → Bool
unfolding key_there
all_known end ks = true
all_known (field k v rest) ks = key_there k ks && all_known rest ks

abbrev has_kind : Kind → Option Json → Bool
has_kind str (some (text s)) = true
has_kind int (some (num n)) = true
has_kind _ _ = false

-- Every key is there, with a value of its type.
unfoldable pub all_typed : List (String × Kind) → Fields → Bool
all_typed [] p = true
all_typed ((k, t) ∷ rest) p = has_kind t (get_field k p) && all_typed rest p

abbrev in_ports : Option (ℕ × ℕ) → Bool
in_ports none = false
in_ports (some (low, high)) = leb 1 low && (leb low high && leb high 65535)

unfoldable pub good_rule : Fields → Bool
unfolding text_in text_at
good_rule p =
    text_in (text_at "direction" p) ("in" ∷ "out" ∷ [])
    && (text_in (text_at "rule_action" p) ("block" ∷ "allow" ∷ [])
        && (text_in (text_at "protocol" p) ("TCP" ∷ "UDP" ∷ [])
            && in_ports (port_range (text_at "port" p))))

-- The checks of the values, one operation after another.
unfoldable pub good_values : Op → Fields → Bool
unfolding text_in text_at number_at good_rule
good_values op_status p = true
good_values op_service p =
    text_in (text_at "op" p) ("query" ∷ "start" ∷ "stop" ∷ "restart" ∷ [])
    && is_service_name (text_at "name" p)
good_values op_firewall p =
    text_in (text_at "op" p) ("list" ∷ "add" ∷ "remove" ∷ [])
    && ((str_eq (text_at "op" p) "list" || is_rule_name (text_at "name" p))
        && (not (str_eq (text_at "op" p) "add") || good_rule p))
good_values op_package p =
    text_in (text_at "op" p) ("install" ∷ "uninstall" ∷ []) && is_package_id (text_at "id" p)
good_values op_power p =
    text_in (text_at "op" p) ("restart" ∷ "shutdown" ∷ "cancel" ∷ [])
    && (str_eq (text_at "op" p) "cancel"
        || (leb 60 (number_at "delay_seconds" p) && leb (number_at "delay_seconds" p) 3600))
good_values op_task p = true

pub data Check : Type 0 where
  checked : Op → Check
  not_allowed bad_params : Check

unfoldable pub validate_op : Option Op → Fields → Check
unfolding all_known all_typed good_values
validate_op none p = not_allowed
validate_op (some op) p =
    if all_known p (keys op) && (all_typed (keys op) p && good_values op p)
    then checked op
    else bad_params

-- validate(op, params); an accepted operation comes back by its name.
unfoldable pub validate : String → Fields → Check
unfolding op_named validate_op
validate op p = validate_op (op_named op) p
