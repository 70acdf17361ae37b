-- ===== src/Queue/Engine/Execute.antt =====
-- core/queue/engine.py: the execution of one task, and the dispatcher's round. Log lines are left
-- out, and messages to the owner have no text. `others` is what other coroutines do to the engine
-- while a checkpoint waits.
pub mod Settles
pub mod Outcome
pub mod Rounds
pub mod Guarantees
pub mod Retries
pub mod Replanning
use Prim.Native.String.{◌++◌ as append_text}
use nova_ai_agent.Prelude.{
  ℕ, ◌+◌, String, Bool, true, false, not, ◌&&◌, ◌||◌, Option, none, some, List, [], ◌∷◌, ◌++◌, map,
  ltb, leb, if◌then◌else◌, lookup,
}
use nova_ai_agent.Exec.{
  Exc, task_cancelled, task_paused, task_interrupted, approval_pending, desktop_unavailable,
  task_blocked, permission_denied, policy_denied, key_error, error, Result, ok, err, pure, raise,
  gets, proceed, ◌>>=◌, ◌>>◌,
}
use nova_ai_agent.Queue.States.{
  TaskState, planning, running, verifying, completed, paused, failed, cancelled, waiting_approval,
  waiting_desktop, retrying, is_received, is_retrying, is_failed,
}
use nova_ai_agent.Db.{
  TaskStep, Task, MessageType, info, user_input_required, task_completed, task_failed_permanently,
  Notice, Db, get_task,
}
use nova_ai_agent.Queue.Store.{
  Field, retry_count, result_summary, error_code, error_message, transition, next_runnable,
}
use nova_ai_agent.Queue.Store.Steps.{ensure_plan, reset_step}
use nova_ai_agent.Queue.Store.Control.{is_queue_paused}
use nova_ai_agent.Permissions.Env.{Env}
use nova_ai_agent.Permissions.Approvals.{send}
use nova_ai_agent.Queue.Engine.Work.{
  VerdictStatus, pass, limited, needs_work, blocked, inconclusive, Verdict, final, verdict_text,
  Ctx, Engine, Work, Run, Executor, with_db, on_db, on_ctx, on_engine,
}
use nova_ai_agent.Queue.Engine.Context.{checkpoint}

-- FAST_PRIORITY
abbrev pub fast_priority : ℕ
fast_priority = 10

-- str(PermissionDenied): "action: reason"
abbrev denial : String → String → String
denial action reason = append_text action (append_text ": " reason)

-- TaskEngine._tell
unfoldable pub tell : Env → Task → MessageType → Run Unit
tell env t kind w =
    let notice : Notice = record { chat_id = t.chat_id; kind = kind; task_id = t.id } in
    (ok tt, with_db (send env notice w.engine.db) w)

-- ctx.task = store.transition(...)
unfoldable pub advance : ℕ → TaskState → Run Unit
advance i dst = do t ← on_db (transition i dst []); on_ctx (λ c. record c { task = t })

-- store.transition(...), the row not kept
unfoldable pub move : ℕ → TaskState → List Field → Run Unit
move i dst fields = do on_db (transition i dst fields); pure tt

unfoldable pub retry_row : Env → Option Task → String → String → ℕ → Run Unit
unfolding move
retry_row env none code message i = raise (error "AssertionError: ")
retry_row env (some current) code message i =
    if ltb current.retry_count env.max_retries
    then move i retrying (
        retry_count (current.retry_count + 1)
        ∷ error_code (some code)
        ∷ error_message (some message)
        ∷ [])
    else move i failed (error_code (some code) ∷ error_message (some message) ∷ [])

-- TaskEngine._retry_or_fail
unfoldable pub retry_or_fail : Env → Task → String → String → Run Unit
unfolding retry_row
retry_or_fail env t code message w = retry_row env (get_task w.engine.db t.id) code message t.id w

unfoldable pub report_row : Env → Task → Option Task → Run Unit
unfolding tell
report_row env t none = pure tt
report_row env t (some current) =
    if is_failed current.state then tell env t task_failed_permanently else pure tt

-- TaskEngine._report_if_failed
unfoldable pub report_if_failed : Env → Task → Run Unit
unfolding report_row
report_if_failed env t w = report_row env t (get_task w.engine.db t.id) w

module _ (env : Env) (others : Engine → Engine) (x : Executor) (t : Task) where
  -- `if task.state is TaskState.RECEIVED`
  unfoldable pub claim : Run Unit
  unfolding advance
  claim = if is_received t.state then advance t.id planning else pure tt

  unfoldable pub make_plan : Run Unit
  make_plan = do
    checkpoint others
    titles ← x.plan
    steps ← on_db (ensure_plan t.id titles)
    on_ctx (λ c. record c { steps = steps })

  -- `if not ctx.steps`
  unfoldable pub plan_if_none : List TaskStep → Run Unit
  unfolding make_plan
  plan_if_none [] = make_plan
  plan_if_none (s ∷ ss) = pure tt

  unfoldable pub work_and_verify : Run (String × Verdict)
  unfolding advance
  work_and_verify = do
    advance t.id running
    result ← x.run
    checkpoint others
    advance t.id verifying
    verdict ← x.verify result
    pure (result, verdict)

  -- The `try` block of `_execute`.
  unfoldable pub attempt : Run (String × Verdict)
  unfolding claim plan_if_none work_and_verify
  attempt = do claim; steps ← gets (λ w. w.ctx.steps); plan_if_none steps; work_and_verify

  -- The `except` clauses of `_execute`.
  unfoldable pub handle : Exc → Run Unit
  unfolding move tell
  handle task_cancelled = do
    move t.id cancelled (error_code (some "CANCELLED_BY_USER") ∷ [])
    tell env t info
  handle task_interrupted = do
    move t.id retrying (error_code (some "INTERRUPTED_BY_RESTART") ∷ [])
    on_engine (λ e. record e { interrupted_ids = e.interrupted_ids ++ t.id ∷ [] })
  handle task_paused = do move t.id paused []; tell env t info
  handle (approval_pending i) = move t.id waiting_approval (error_code none ∷ [])
  handle (desktop_unavailable reason) = do
    move t.id waiting_desktop (error_code none ∷ error_message (some reason) ∷ [])
    tell env t user_input_required
  handle (task_blocked message) = do
    move t.id failed (error_code (some "BLOCKED_NEEDS_USER") ∷ error_message (some message) ∷ [])
    tell env t user_input_required
  handle (permission_denied action reason) = do
    move t.id failed
        (error_code (some "PERMISSION_DENIED") ∷ error_message (some (denial action reason)) ∷ [])
    tell env t task_failed_permanently
  handle (policy_denied message) = do
    move t.id failed (error_code (some "PERMISSION_DENIED") ∷ error_message (some message) ∷ [])
    tell env t task_failed_permanently
  handle e = do retry_or_fail env t "STEP_ERROR" (env.describe e); report_if_failed env t

  -- The steps from a number on are reset.
  unfoldable pub reset_from : ℕ → List TaskStep → Run Unit
  reset_from first [] = pure tt
  reset_from first (s ∷ ss) = do
    if leb first s.seq then on_db (reset_step t.id s.seq) else pure tt
    reset_from first ss

  unfoldable pub redo_row : Option ℕ → Option Task → Run Unit
  unfolding reset_from
  redo_row (some first) (some current) =
      if ltb current.retry_count env.max_retries then reset_from first current.steps else pure tt
  redo_row _ _ = pure tt

  unfoldable pub tell_retry : Option Task → Run Unit
  unfolding tell
  tell_retry none = pure tt
  tell_retry (some after) = if is_retrying after.state then tell env t info else pure tt

  -- What follows the `try` block, by the final verdict.
  unfoldable pub conclude_by : VerdictStatus → String → Verdict → Run Unit
  unfolding move tell redo_row tell_retry
  conclude_by pass result v = do
    move t.id completed (result_summary (some result) ∷ error_code none ∷ error_message none ∷ [])
    tell env t task_completed
  conclude_by limited result v = do
    move t.id completed (result_summary (some result) ∷ error_code none ∷ error_message none ∷ [])
    tell env t task_completed
  conclude_by inconclusive result v = do
    move t.id completed (result_summary (some result) ∷ error_code none ∷ error_message none ∷ [])
    tell env t task_completed
  conclude_by blocked result v = do
    move t.id failed
        (error_code (some "BLOCKED_NEEDS_USER") ∷ error_message (some (verdict_text v)) ∷ [])
    tell env t user_input_required
  conclude_by needs_work result v = do
    current ← gets (λ w. get_task w.engine.db t.id)
    redo_row v.redo_from current
    retry_or_fail env t "VERIFICATION_FAILED" (verdict_text v)
    after ← gets (λ w. get_task w.engine.db t.id)
    tell_retry after
    report_if_failed env t

  unfoldable pub conclude : Result (String × Verdict) → Run Unit
  unfolding conclude_by handle
  conclude (ok (result, v)) = conclude_by (final v) result v
  conclude (err e) = handle e

  -- TaskEngine._execute, with the executor of the task's type
  unfoldable pub execute : Run Unit
  unfolding attempt conclude
  execute w = let (r, w') = attempt w in conclude r w'

-- A fresh TaskContext.
unfoldable pub context_of : Bool → Task → Ctx
context_of gated t = record { task = t; steps = t.steps; current_seq = none; gated = gated }

unfoldable pub execute_with : Env → (Engine → Engine) → Option Executor → Task → Run Unit
unfolding execute
execute_with env others none t = raise (key_error t.id)
execute_with env others (some x) t = execute env others x t

abbrev pub engine_error : List Field
engine_error = error_code (some "ENGINE_ERROR") ∷ []

-- What `run_once` does with the outcome of `_execute`: an exception that came out of it parks the
-- task, and an exception of that is suppressed.
unfoldable pub park : ℕ → Result (Unit {0}) → Engine → Engine
park i (ok r) e = e
park i (err x) e = record e { db = (transition i failed engine_error e.db).1 }

abbrev pub set_current : Bool → Option ℕ → Engine → Engine
set_current true i e = record e { current_fast_task_id = i }
set_current false i e = record e { current_task_id = i }

abbrev pub names : List (String × Executor) → List String
names xs = map (λ p. p.0) xs

abbrev pub lane_priority : Bool → Option ℕ
lane_priority true = some fast_priority
lane_priority false = none

module _ (env : Env) (others : Engine → Engine) (xs : List (String × Executor)) where
  unfoldable pub run_picked : Bool → Bool → Option Task → Engine → Bool × Engine
  unfolding execute_with park context_of
  run_picked gated fast none e = (false, e)
  run_picked gated fast (some t) e =
      let w : Work = record { ctx = context_of gated t; engine = set_current fast (some t.id) e } in
      let (r, w') = execute_with env others (lookup t.task_type xs) t w in
      (true, set_current fast none (park t.id r w'.engine))

  -- TaskEngine.run_once: whether a task ran
  unfoldable pub run_once : Bool → Bool → Engine → Bool × Engine
  unfolding run_picked
  run_once gated fast e =
      if e.draining || is_queue_paused e.db
      then (false, e)
      else run_picked gated fast (next_runnable (names xs) (lane_priority fast) e.db) e
