-- ===== src/Skills/Prepare.antt =====
-- core/skills/runner.py: the checks of `invoke` up to the ledger. `allowed_skills` and `agent` of the
-- context, and the nonce that a new approval draws, are part of the call.
pub mod Checks
pub mod Checked
use Prim.Native.String.{◌++◌ as append_text}
use nova_ai_agent.Prelude.{
  ℕ, String, Bool, true, false, not, ◌&&◌, ◌||◌, Option, none, some, List, [], ◌∷◌, str_eq, lookup,
  replace, if◌then◌else◌,
}
use nova_ai_agent.Json.{Json, null, flag, num, text, arr, obj, Items, nil, cons, Fields, end, field}
use nova_ai_agent.Exec.{policy_denied, task_blocked, ok, pure, raise, modify, ◌>>=◌, ◌>>◌}
use nova_ai_agent.Db.{EffectStatus, pending, done, failed}
use nova_ai_agent.Permissions.Env.{Env}
use nova_ai_agent.Permissions.Audit.{record_audit}
use nova_ai_agent.Permissions.Approvals.{text_in, secret_actions, secret_keys}
use nova_ai_agent.Queue.Engine.Work.{Work, Run, with_db}
use nova_ai_agent.Queue.Engine.Require.{SafetyCheck, Ask, require}
use nova_ai_agent.Skills.Ledger.{
  starts_with_any, is_side_effect, effect_key, Entry, lookup_effect, begin, finish,
}
use nova_ai_agent.Skills.Api.{
  ToolResult, ToolEnv, Validated, valid, invalid, Tool, action_for, Skill, SkillRegistry, get,
  quoted, skill_error,
}

-- SkillRunner; the environment of its tools is part of them.
pub record SkillRunner : Type 0 where
  pub registry : SkillRegistry
  pub has_audit : Bool
  pub has_ledger : Bool

pub record Invocation : Type 0 where
  pub skill : String
  pub tool : String
  pub params : Fields
  pub allowed_skills : Option (List String)
  pub agent : String
  pub nonce : String

abbrev pub full_name : Invocation → String
full_name c = append_text c.skill (append_text "." c.tool)

abbrev pub is_allowed : Option (List String) → String → String → Bool
is_allowed none skill name = true
is_allowed (some allowed) skill name = text_in skill allowed || text_in name allowed

abbrev who : String → String
who agent = if str_eq agent "" then "current" else agent

unfoldable pub check_allowed : Invocation → Run Unit
unfolding text_in
check_allowed c =
    if is_allowed c.allowed_skills c.skill (full_name c)
    then pure tt
    else raise (
        policy_denied (
          append_text "the "
            (append_text (who c.agent) (append_text " agent may not use " (full_name c)))))

unfoldable pub check_params : Invocation → Validated → Run Fields
check_params c (valid p) = pure p
check_params c (invalid errors) =
    skill_error (append_text (full_name c) (append_text ": invalid params: " errors))

unfoldable pub run_precheck : Option (Fields → ToolEnv → Run Unit) → Fields → ToolEnv → Run Unit
run_precheck none p env = pure tt
run_precheck (some check) p env = check p env

abbrev pub declared_for : Option (List String) → List String
declared_for none = []
declared_for (some actions) = actions

unfoldable pub check_declared : Invocation → Skill → String → Run Unit
unfolding text_in
check_declared c s action =
    if text_in action (declared_for (lookup c.tool s.declared))
    then pure tt
    else skill_error
        (append_text (full_name c) (append_text " requested undeclared action " (quoted action)))

-- What the first part of `invoke` finds out.
pub record Prepared : Type 0 where
  pub tool : Tool
  pub params : Fields
  pub env : ToolEnv
  pub action : String

unfoldable pub check_action : Invocation → Skill → Tool → Fields → ToolEnv → String → Run Prepared
unfolding check_declared
check_action c s t p env action = do
  check_declared c s action
  pure (record { tool = t; params = p; env = env; action = action })

unfoldable pub check_policy : Invocation → Skill → Tool → Fields → ToolEnv → Run Prepared
unfolding run_precheck check_action
check_policy c s t p env = do
  run_precheck t.precheck p env
  action ← action_for t p env
  check_action c s t p env action

unfoldable pub prepare_params : Invocation → Skill → Tool → Fields → Run Prepared
unfolding check_policy
prepare_params c s t p w = check_policy c s t p (record { task_id = w.ctx.task.id }) w

unfoldable pub prepare_tool : Invocation → Skill → Tool → Run Prepared
unfolding check_params prepare_params
prepare_tool c s t = do p ← check_params c (t.validate c.params); prepare_params c s t p

-- The checks of `invoke`, up to the ledger.
unfoldable pub prepare : SkillRunner → Invocation → Run Prepared
unfolding check_allowed prepare_tool
prepare r c = do
  check_allowed c
  found ← get r.registry c.skill c.tool
  prepare_tool c found.0 found.1
