-- ===== src/Queue/Engine/Context.antt =====
-- core/queue/engine.py: TaskContext, the calls that an executor makes while it works on a task.
-- `others` is what other coroutines do to the engine while the context waits.
pub mod Resume
use Prim.Native.String.{◌++◌ as append_text}
use nova_ai_agent.Prelude.{
  ℕ, ◌-◌, String, Bool, true, false, not, ◌&&◌, Option, none, some, List, [], ◌∷◌, ◌++◌, ◌==◌,
  if◌then◌else◌,
}
use nova_ai_agent.Json.{Json, obj, Fields, get_field}
use nova_ai_agent.Exec.{
  Exc, task_cancelled, task_paused, task_interrupted, approval_pending, desktop_unavailable,
  permission_denied, key_error, Result, ok, err, pure, raise, gets, modify, proceed, ◌>>=◌, ◌>>◌,
}
use nova_ai_agent.Db.{
  StepStatus, done, Level, ApprovalStatus, Approval, MessageType, progress, live, Notice, TaskStep,
  Task, Db, get_task, find_step,
}
use nova_ai_agent.Queue.Store.Steps.{start_step, complete_step, save_partial, reset_step, fail_step}
use nova_ai_agent.Queue.Store.Control.{flags}
use nova_ai_agent.Permissions.Env.{Env}
use nova_ai_agent.Permissions.Audit.{record_audit}
use nova_ai_agent.Permissions.Engine.{
  Decision, allow, allow_logged, needs_check, needs_approval, deny, Evaluation, evaluate,
}
use nova_ai_agent.Permissions.Approvals.{fingerprint, find, request, send, spaced}
use nova_ai_agent.Permissions.Decide.{consume}
use nova_ai_agent.Queue.Engine.Work.{Ctx, Engine, Work, Run, with_db, on_db, on_ctx}

-- What `checkpoint` raises, from the flags of the task and of the engine.
unfoldable pub checkpoint_of : Bool → Bool → Bool → Run Unit
checkpoint_of true pause interrupted = raise task_cancelled
checkpoint_of false true interrupted = raise task_paused
checkpoint_of false false true = raise task_interrupted
checkpoint_of false false false = pure tt

-- TaskContext.checkpoint
unfoldable pub checkpoint : (Engine → Engine) → Run Unit
unfolding checkpoint_of
checkpoint others w =
    let w' = record w { engine = others w.engine } in
    let (cancel, pause) = flags w'.engine.db w.ctx.task.id in
    checkpoint_of cancel pause w'.engine.draining w'

-- TaskContext.remember
unfoldable pub remember : Fields → Run Unit
remember partial w = elim w.ctx.current_seq [
  | none ↦ (ok tt, w)
  | some seq ↦ on_db (save_partial w.ctx.task.id seq partial) w
]

unfoldable pub partial_in : Option Json → Option Fields
partial_in (some (obj fs)) = some fs
partial_in _ = none

unfoldable pub partial_of : Option Fields → Option Fields
unfolding partial_in
partial_of none = none
partial_of (some fs) = partial_in (get_field "partial" fs)

unfoldable pub checkpoint_in : Option TaskStep → Option Fields
checkpoint_in none = none
checkpoint_in (some s) = s.checkpoint

abbrev step_at : Option ℕ → List TaskStep → Option TaskStep
step_at none steps = none
step_at (some seq) steps = find_step seq steps

-- TaskContext.recalled
unfoldable pub recalled : Ctx → Option Fields
unfolding partial_of checkpoint_in
recalled c = partial_of (checkpoint_in (step_at c.current_seq c.steps))

-- The exceptions after which a step runs again later; any other fails it.
unfoldable pub runs_again : Exc → Bool
runs_again task_cancelled = true
runs_again task_paused = true
runs_again (approval_pending i) = true
runs_again (desktop_unavailable r) = true
runs_again _ = false

-- The `except` clauses of `run_step`: the step is marked and the exception goes on.
unfoldable pub step_raised : Env → ℕ → ℕ → Exc → Run (Option Fields)
unfolding runs_again
step_raised env task_id seq e w =
    if runs_again e
    then (on_db (reset_step task_id seq) >>= λ _. raise e) w
    else (on_db (fail_step task_id seq (env.describe e)) >>= λ _. raise e) w

unfoldable pub refreshed : Option Task → Ctx → Ctx
refreshed none c = c
refreshed (some t) c = record c { steps = t.steps }

unfoldable pub step_returned : ℕ → ℕ → Option Fields → Run (Option Fields)
unfolding refreshed
step_returned task_id seq result = do
  on_db (complete_step task_id seq result)
  found ← gets (λ w. get_task w.engine.db task_id)
  on_ctx (refreshed found)
  pure result

unfoldable pub step_ended : Env → ℕ → ℕ → Result (Option Fields) → Run (Option Fields)
unfolding step_raised step_returned
step_ended env task_id seq (ok result) = step_returned task_id seq result
step_ended env task_id seq (err e) = step_raised env task_id seq e

-- The body of a step, from the checkpoint data of the step before it.
abbrev pub StepFn : Type 0
StepFn = Option Fields → Run (Option Fields)

unfoldable pub run_body : Env → ℕ → ℕ → StepFn → Option Fields → Run (Option Fields)
unfolding step_ended
run_body env task_id seq fn previous w =
    let (result, w') = fn previous w in step_ended env task_id seq result w'

unfoldable pub is_done : StepStatus → Bool
is_done done = true
is_done _ = false

-- The checkpoint of the step before; numbers start at 1.
unfoldable pub previous : ℕ → List TaskStep → Option Fields
unfolding checkpoint_in
previous seq steps = if seq == 0 then none else checkpoint_in (find_step (seq - 1) steps)

unfoldable pub run_found : Env → (Engine → Engine) → ℕ → StepFn → TaskStep → Run (Option Fields)
unfolding run_body previous
run_found env others seq fn step w =
    if is_done step.status
    then (ok step.checkpoint, w)
    else (do
      checkpoint others
      on_ctx (λ c. record c { current_seq = some seq })
      on_db (start_step w.ctx.task.id seq)
      run_body env w.ctx.task.id seq fn (previous seq w.ctx.steps))
        w

unfoldable pub run_in : Env → (Engine → Engine) → ℕ → StepFn → Option TaskStep → Run (Option Fields)
unfolding run_found
run_in env others seq fn none = raise (key_error seq)
run_in env others seq fn (some step) = run_found env others seq fn step

-- TaskContext.run_step
unfoldable pub run_step : Env → (Engine → Engine) → ℕ → StepFn → Run (Option Fields)
unfolding run_in
run_step env others seq fn w = run_in env others seq fn (find_step seq w.ctx.steps) w

-- TaskContext.live and TaskContext.progress: a message of that kind, without its text.
unfoldable pub say : Env → MessageType → Run Unit
say env kind w =
    let notice : Notice = record {
      chat_id = w.ctx.task.chat_id;
      kind = kind;
      task_id = w.ctx.task.id;
    } in
    (ok tt, with_db (send env notice w.engine.db) w)
