-- ===== src/Permissions/Engine.antt =====
-- core/permissions/engine.py: what the configured level of an action decides.
pub mod Gate
use nova_ai_agent.Prelude.{
  String, Bool, true, false, not, ◌&&◌, Option, none, some, List, [], ◌∷◌, if◌then◌else◌, lookup,
  insert,
}
use nova_ai_agent.Db.{Level, green, blue, yellow, red, Db}
use nova_ai_agent.Permissions.Env.{Env}

abbrev pub lockdown_key : String
lockdown_key = "security.lockdown"

pub data Decision : Type 0 where
  allow allow_logged needs_check needs_approval deny : Decision

pub record Evaluation : Type 0 where
  pub action : String
  pub level : Level
  pub decision : Decision
  pub reason : String

abbrev pub or_red : Option Level → Level
or_red none = red
or_red (some level) = level

-- PermissionEngine.level_of; the schema allows no other default level than RED
unfoldable pub level_of : Env → String → Level
level_of env action = or_red (lookup action env.actions)

abbrev pub setting_on : Option Bool → Bool
setting_on none = false
setting_on (some b) = b

-- PermissionEngine.is_lockdown
unfoldable pub is_lockdown : Db → Bool
is_lockdown db = setting_on (lookup lockdown_key db.settings)

-- PermissionEngine.set_lockdown
unfoldable pub set_lockdown : Bool → Db → Db
set_lockdown on db = record db { settings = insert lockdown_key on db.settings }

abbrev pub is_green : Level → Bool
is_green green = true
is_green _ = false

unfoldable pub decision_of : Level → Decision
decision_of green = allow
decision_of blue = allow_logged
decision_of yellow = needs_check
decision_of red = needs_approval

abbrev reason_of : Option Level → String
reason_of none = "unknown action"
reason_of (some level) = "configured"

-- PermissionEngine.evaluate
unfoldable pub evaluate : Env → String → Db → Evaluation
unfolding level_of is_lockdown decision_of
evaluate env action db =
    let level = level_of env action in
    if is_lockdown db && not (is_green level)
    then record { action = action; level = level; decision = deny; reason = "lockdown active" }
    else record {
      action = action;
      level = level;
      decision = decision_of level;
      reason = reason_of (lookup action env.actions);
    }

-- The validator _red_stays_red of PermissionsConfig, for the list of actions that must stay RED.
unfoldable pub red_stays_red : List String → List (String × Level) → Bool
red_stays_red [] actions = true
red_stays_red (a ∷ mandatory) actions = elim (or_red (lookup a actions)) [
  | red ↦ red_stays_red mandatory actions
  | _ ↦ false
]

-- MANDATORY_RED
abbrev pub mandatory_red : List String
mandatory_red =
    "file.delete_important" ∷ "file.delete_pathwide" ∷ "git.push_production"
    ∷ "message.send_external" ∷ "system.shutdown" ∷ "system.restart" ∷ "account.security_change"
    ∷ "admin.destructive" ∷ []

-- PermissionsConfig accepts the map of actions.
unfoldable pub valid_actions : List (String × Level) → Bool
valid_actions actions = red_stays_red mandatory_red actions
