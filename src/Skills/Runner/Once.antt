-- ===== src/Skills/Runner/Once.antt =====
-- A side effect of a task runs at most once through core/skills/runner.py, unless it failed.
use nova_ai_agent.Prelude.{◌≡◌, ◌∙◌, ap, String, true, List}
use nova_ai_agent.Exec.{task_blocked, Exc, ok, err}
use nova_ai_agent.Db.{pending, done}
use nova_ai_agent.Permissions.Env.{Env}
use nova_ai_agent.Queue.Engine.Work.{Work}
use nova_ai_agent.Skills.Ledger.Writes.{HasLedger, status_of}
use nova_ai_agent.Skills.Api.{ToolResult}
use nova_ai_agent.Skills.Prepare.{SkillRunner, Invocation, Prepared, prepare}
use nova_ai_agent.Skills.Prepare.Checks.{QuietRegistry}
use nova_ai_agent.Skills.Runner.{already_done, stopped, key_of, invoke}
use nova_ai_agent.Skills.Runner.Effects.{Leaves}
use nova_ai_agent.Skills.Runner.Calls.{IsClosed, invoke_all, invoke_all-keeps, SameEffect}
use nova_ai_agent.Skills.Runner.Answers.{Passes, IsRecorded, answer, later_call, invoke-Leaves}

module _ (env : Env) (r : SkillRunner) (q : QuietRegistry r.registry) where
  module _ (c : Invocation) (x : Prepared) (w : Work) (h : HasLedger w.engine.db)
      (p : (prepare r c w).0 ≡ ok x) (l : IsRecorded r x) (cs : List Invocation) (d : Invocation)
      (y : Prepared) (again : (prepare r d (invoke_all env r cs (invoke env r c w).1)).0 ≡ ok y)
      (e : SameEffect x y) where
    abbrev later : Work
    later = invoke_all env r cs (invoke env r c w).1

    closed_later :
        (v : Leaves w.ctx.task.id (key_of env x) (invoke env r c w).0 (invoke env r c w).1)
        → IsClosed v.row
        → (summary : String) × (invoke env r d later
            ≡ (answer y v.row.status summary, (prepare r d later).1))
    closed_later v n =
        later_call env r q w.ctx.task.id x v.row d y later
          (invoke_all-keeps env r cs w.ctx.task.id (key_of env x) v.row (invoke env r c w).1 q n
            v.stands)
          n again (rw e.action l) e

    -- When the tools leave the ledger alone and its table is in the order of its ids: after a call
    -- that came to the ledger and returned a success, whatever calls came next, a call that passes the
    -- checks with the same action, target and parameters changes nothing after them, and returns that
    -- the effect was done before.
    pub invoke_once :
        (result : ToolResult)
        → (invoke env r c w).0 ≡ ok result
        → result.ok ≡ true
        → (summary : String) × (invoke env r d later
            ≡ (ok (already_done summary), (prepare r d later).1))
    invoke_once result k f =
        let v = invoke-Leaves env r q c x w h p l (λ e j. cc) in
        let is_done : v.row.status ≡ done = v.returned result k ∙ ap status_of f in
        let (summary, a) = closed_later v (λ b. cc) in
        (summary, a ∙ ap (λ t. (answer y t summary, (prepare r d later).1)) is_done)

    -- Under the same conditions: after a call that came to the ledger, that the gate let through, and
    -- that an exception ended, whatever calls came next, a call that passes the checks with the same
    -- action, target and parameters changes nothing after them, and stops the task for the owner.
    pub invoke_cut_off :
        (e : Exc)
        → Passes env c x (prepare r c w).1
        → (invoke env r c w).0 ≡ err e
        → invoke env r d later ≡ (err (task_blocked (stopped y)), (prepare r d later).1)
    invoke_cut_off b g k =
        let v = invoke-Leaves env r q c x w h p l (λ e j. g) in
        let is_pending : v.row.status ≡ pending = v.raised b k in
        let (summary, a) = closed_later v (λ b. cc) in
        a ∙ ap (λ t. (answer y t summary, (prepare r d later).1)) is_pending
