-- ===== src/Queue/Engine/Require.antt =====
-- core/queue/engine.py: `require`, the permission gate that an executor calls before a side effect.
-- The nonce that a new request draws is an argument, and the log line of a BLUE action is left out.
pub mod Gate
pub mod Permits
use Prim.Native.String.{◌++◌ as append_text}
use nova_ai_agent.Prelude.{
  ℕ, String, Bool, true, false, Option, none, some, List, [], ◌∷◌, if◌then◌else◌,
}
use nova_ai_agent.Json.{Fields}
use nova_ai_agent.Exec.{
  Exc, approval_pending, permission_denied, Result, ok, err, pure, raise, proceed, ◌>>=◌, ◌>>◌,
}
use nova_ai_agent.Db.{Level, ApprovalStatus, approved, Approval, Db}
use nova_ai_agent.Permissions.Env.{Env}
use nova_ai_agent.Permissions.Audit.{record_audit}
use nova_ai_agent.Permissions.Engine.{
  Decision, allow, allow_logged, needs_check, needs_approval, deny, Evaluation, evaluate,
}
use nova_ai_agent.Permissions.Approvals.{fingerprint, find, request, spaced}
use nova_ai_agent.Permissions.Decide.{consume}
use nova_ai_agent.Queue.Engine.Work.{Ctx, Engine, Work, Run, with_db, on_db}

-- SafetyCheck: whether the action is safe, and why.
abbrev pub SafetyCheck : Type 0
SafetyCheck = Run (Bool × String)

-- The arguments of `require`, and the nonce.
pub record Ask : Type 0 where
  pub action : String
  pub target : String
  pub summary : String
  pub details : Option Fields
  pub safety_check : Option SafetyCheck
  pub nonce : String

abbrev pub audit_task : Env → (actor action status : String) → Ask → ℕ → Db → Db
audit_task env actor action status a task_id db =
    record_audit env actor action status (some (spaced a.action a.target)) (some task_id) db

-- `tid` is the id of the task, read when `require` starts.
module _ (env : Env) (a : Ask) (tid : ℕ) where
  -- The request for an approval, with the summary that the checks have left.
  unfoldable pub ask_owner : Level → String → Run Unit
  ask_owner level summary w =
      (do
        req ←
            on_db
              (request env tid w.ctx.task.chat_id level a.action a.target summary a.nonce a.details)
        raise (approval_pending req.id))
        w

  unfoldable pub after_consume : Level → String → Bool → Run Unit
  unfolding ask_owner
  after_consume level summary true w =
      (ok tt, with_db (audit_task env "task" "approval.used" "used" a tid w.engine.db) w)
  after_consume level summary false w = ask_owner level summary w

  unfoldable pub use_found : Level → String → Option Approval → Run Unit
  unfolding after_consume
  use_found level summary none w = ask_owner level summary w
  use_found level summary (some found) w =
      let (used, db') = consume found.id w.engine.db in
      after_consume level summary used (with_db db' w)

  -- RED, or YELLOW that did not pass its check.
  unfoldable pub need_approval : Level → String → Run Unit
  unfolding use_found
  need_approval level summary w =
      let fp = fingerprint env a.action a.target a.details in
      use_found level summary (find tid fp approved w.engine.db) w

  abbrev noted : String → String
  noted note = env.strip (append_text a.summary (append_text "\n⚠" note))

  unfoldable pub after_check : Level → Bool × String → Run Unit
  unfolding need_approval
  after_check level (true, why) w = (
    ok tt,
    with_db (audit_task env "task" "permission.safety_check" "passed" a tid w.engine.db) w,
  )
  after_check level (false, why) w =
      need_approval level (noted (append_text " Safety check failed: " why))
        (with_db (audit_task env "task" "permission.safety_check" "failed" a tid w.engine.db) w)

  unfoldable pub check_safety : Level → Option SafetyCheck → Run Unit
  unfolding after_check
  check_safety level none =
      need_approval level (noted " No safety check available for this action.")
  check_safety level (some check) = check >>= after_check level

  unfoldable pub decided : Evaluation → Decision → Run Unit
  unfolding check_safety
  decided ev deny w = (
    err (permission_denied a.action ev.reason),
    with_db (audit_task env "task" "permission.denied" "denied" a tid w.engine.db) w,
  )
  decided ev allow w = (ok tt, w)
  decided ev allow_logged w = (ok tt, w)
  decided ev needs_check w = check_safety ev.level a.safety_check w
  decided ev needs_approval w = need_approval ev.level a.summary w

-- TaskContext.require
unfoldable pub require : Env → Ask → Run Unit
unfolding decided
require env a w =
    if w.ctx.gated
    then (let ev = evaluate env a.action w.engine.db in
        decided env a w.ctx.task.id ev ev.decision w)
    else (err (permission_denied a.action "permission engine unavailable"), w)
