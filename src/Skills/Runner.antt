-- ===== src/Skills/Runner.antt =====
-- core/skills/runner.py: `invoke`, the gate of every call of a tool, from the ledger on. Log lines and
-- the details of an audit row are left out.
pub mod Effects
pub mod Calls
pub mod Answers
pub mod Once
pub mod Gated
use Prim.Native.String.{◌++◌ as append_text}
use nova_ai_agent.Prelude.{
  ℕ, String, Bool, true, false, not, ◌&&◌, ◌||◌, Option, none, some, List, [], ◌∷◌, str_eq, lookup,
  replace, if◌then◌else◌,
}
use nova_ai_agent.Json.{Json, null, flag, num, text, arr, obj, Items, nil, cons, Fields, end, field}
use nova_ai_agent.Exec.{policy_denied, task_blocked, ok, pure, raise, gets, modify, ◌>>=◌, ◌>>◌}
use nova_ai_agent.Db.{EffectStatus, pending, done, failed}
use nova_ai_agent.Permissions.Env.{Env}
use nova_ai_agent.Permissions.Audit.{record_audit}
use nova_ai_agent.Permissions.Approvals.{text_in, secret_actions, secret_keys}
use nova_ai_agent.Queue.Engine.Work.{Work, Run, with_db}
use nova_ai_agent.Queue.Engine.Require.{SafetyCheck, Ask, require}
use nova_ai_agent.Skills.Ledger.{
  starts_with_any, is_side_effect, effect_key, Entry, lookup_effect, begin, finish,
}
use nova_ai_agent.Skills.Api.{
  ToolResult, ToolEnv, Validated, valid, invalid, Tool, action_for, Skill, SkillRegistry, get,
  quoted, skill_error,
}
use nova_ai_agent.Skills.Prepare.{SkillRunner, Invocation, Prepared, prepare}

abbrev pub audited_prefixes : List String
audited_prefixes =
    "file.delete" ∷ "process.kill" ∷ "powershell.run" ∷ "terminal.run" ∷ "message.send" ∷ "git.push"
    ∷ "admin." ∷ []

unfoldable mutual
  -- _redact_value
  pub redact_value : Env → Json → Json
  redact_value env null = null
  redact_value env (flag b) = flag b
  redact_value env (num n) = num n
  redact_value env (text s) = text (env.redact s)
  redact_value env (arr xs) = arr (redact_items env xs)
  redact_value env (obj fs) = obj (redact_fields env fs)

  pub redact_items : Env → Items → Items
  redact_items env nil = nil
  redact_items env (cons v rest) = cons (redact_value env v) (redact_items env rest)

  pub redact_fields : Env → Fields → Fields
  redact_fields env end = end
  redact_fields env (field k v rest) = field k (redact_value env v) (redact_fields env rest)

abbrev masked : Env → String → Json → String → String
masked env k (text v) summary =
    if text_in (env.lower k) secret_keys && not (str_eq v "")
    then replace v "•••" summary
    else summary
masked env k _ summary = summary

-- The loop that keeps a secret out of the summary.
unfoldable pub mask_secrets : Env → Fields → String → String
mask_secrets env end summary = summary
mask_secrets env (field k v rest) summary = mask_secrets env rest (masked env k v summary)

unfoldable pub shown_summary : Env → Prepared → String
unfolding text_in mask_secrets
shown_summary env x =
    if text_in x.action secret_actions
    then mask_secrets env x.params (x.tool.summary x.params)
    else x.tool.summary x.params

abbrev pub check_of :
    Option (Fields → ToolEnv → Run (Bool × String)) → Fields → ToolEnv → Option SafetyCheck
check_of none p env = none
check_of (some check) p env = some (check p env)

abbrev pub ask_of : Env → Invocation → Prepared → Ask
ask_of env c x = record {
  action = x.action;
  target = x.tool.target x.params;
  summary = shown_summary env x;
  details = some x.params;
  safety_check = check_of x.tool.safety_check x.params x.env;
  nonce = c.nonce;
}

-- ledger.begin where the effect has a key
unfoldable pub begin_effect : Option String → Prepared → Run (Option ℕ)
begin_effect none x w = (ok none, w)
begin_effect (some key) x w =
    let (id, db) = begin w.ctx.task.id key x.action (x.tool.target x.params) w.engine.db in
    (ok (some id), with_db db w)

-- ledger.finish where it has begun
unfoldable pub finish_effect : Env → Option ℕ → ToolResult → Run Unit
finish_effect env none result = pure tt
finish_effect env (some id) result =
    modify (λ w. with_db (finish id result.ok (env.redact result.summary) w.engine.db) w)

abbrev pub safe_result : Env → ToolResult → ToolResult
safe_result env result = record {
  ok = result.ok;
  summary = env.redact result.summary;
  content = redact_fields env result.content;
  evidence = redact_fields env result.evidence;
  untrusted = result.untrusted;
}

abbrev ok_text : Bool → String
ok_text true = "ok"
ok_text false = "failed"

unfoldable pub audit_call : Env → SkillRunner → Invocation → Prepared → ToolResult → Run Unit
unfolding starts_with_any
audit_call env r c x safe =
    if r.has_audit && starts_with_any audited_prefixes x.action
    then modify (λ w.
      with_db
        (record_audit env (append_text "skill:" c.skill) x.action (ok_text safe.ok)
          (some (x.tool.target x.params)) (some w.ctx.task.id) w.engine.db)
        w)
    else pure tt

unfoldable pub conclude :
    Env → SkillRunner → Invocation → Prepared → Option ℕ → ToolResult → Run ToolResult
unfolding finish_effect audit_call
conclude env r c x id result = do
  finish_effect env id result
  audit_call env r c x (safe_result env result)
  pure (safe_result env result)

-- The run of the tool, and what is recorded of it.
unfoldable pub run_tool : Env → SkillRunner → Invocation → Prepared → Option String → Run ToolResult
unfolding begin_effect conclude
run_tool env r c x key = do
  id ← begin_effect key x
  result ← x.tool.run x.params x.env
  conclude env r c x id result

-- The last part of `invoke`: the gate and the run.
unfoldable pub perform : Env → SkillRunner → Invocation → Prepared → Option String → Run ToolResult
unfolding run_tool
perform env r c x key = do require env (ask_of env c x); run_tool env r c x key

abbrev pub already_done : String → ToolResult
already_done summary = record {
  ok = true;
  summary = append_text "already done earlier in this task (not repeated): " summary;
  content = field "idempotent_replay" (flag true) end;
  evidence = end;
  untrusted = false;
}

abbrev pub stopped : Prepared → String
stopped x = append_text x.action (
    append_text " on " (
      append_text (x.tool.target x.params)
        " was started earlier but its result was never recorded (e.g. a crash mid-action). I won't run it again blindly — please check whether it happened, then tell me to continue or cancel."))

unfoldable pub by_status :
    Env → SkillRunner → Invocation → Prepared → String → EffectStatus → String → Run ToolResult
unfolding perform
by_status env r c x key done summary = pure (already_done summary)
by_status env r c x key pending summary = raise (task_blocked (stopped x))
by_status env r c x key failed summary = perform env r c x (some key)

unfoldable pub by_entry :
    Env → SkillRunner → Invocation → Prepared → String → Option Entry → Run ToolResult
unfolding by_status
by_entry env r c x key none = perform env r c x (some key)
by_entry env r c x key (some e) = by_status env r c x key e.status e.summary

abbrev pub key_of : Env → Prepared → String
key_of env x = effect_key env x.action (x.tool.target x.params) x.params

-- From the ledger on.
unfoldable pub pass_ledger : Env → SkillRunner → Invocation → Prepared → Run ToolResult
unfolding by_entry
pass_ledger env r c x w =
    if r.has_ledger && is_side_effect x.action
    then by_entry env r c x (key_of env x) (lookup_effect w.ctx.task.id (key_of env x) w.engine.db)
        w
    else perform env r c x none w

-- SkillRunner.invoke
unfoldable pub invoke : Env → SkillRunner → Invocation → Run ToolResult
unfolding prepare pass_ledger
invoke env r c = do x ← prepare r c; pass_ledger env r c x
