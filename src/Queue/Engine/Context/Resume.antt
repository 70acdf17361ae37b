-- ===== src/Queue/Engine/Context/Resume.antt =====
-- The steps of a task through `run_step` of core/queue/engine.py.
use nova_ai_agent.Prelude.{
  ℕ, ◌≡◌, ◌⊎◌, refl, String, true, cut, Option, none, some, arith, if◌then◌else◌, Bool-cases, inl,
  inr,
}
use nova_ai_agent.Json.{Fields}
use nova_ai_agent.Exec.{
  Exc, task_cancelled, task_paused, approval_pending, desktop_unavailable, key_error, Result, ok,
  err,
}
use nova_ai_agent.Db.{pending, done, failed, TaskStep, Task, Db, get_task, find_step}
use nova_ai_agent.Queue.Store.Steps.{
  update_step, completed_with, back_to_pending, failed_with, complete_step, reset_step, fail_step,
}
use nova_ai_agent.Queue.Store.Steps.Progress.{update_step_rows}
use nova_ai_agent.Permissions.Env.{Env}
use nova_ai_agent.Queue.Engine.Work.{Engine, Work, on_db, on_ctx}
use nova_ai_agent.Queue.Engine.Context.{
  StepFn, runs_again, step_raised, step_ended, run_body, is_done, run_step,
}

-- A step that the context knows as DONE gives the checkpoint it was completed with: its body does not
-- run, and nothing changes, whatever the other coroutines want.
pub run_step_done :
    (env : Env) (others : Engine → Engine) (seq : ℕ) (fn : StepFn) (w : Work) (s : TaskStep)
    → find_step seq w.ctx.steps ≡ some s
    → s.status ≡ done
    → run_step env others seq fn w ≡ (ok s.checkpoint, w)
unfolding run_step is_done
run_step_done env others seq fn w s f d = rw f (rw d refl)

-- A step number that the plan does not have is a KeyError, and nothing changes.
pub run_step_missing :
    (env : Env) (others : Engine → Engine) (seq : ℕ) (fn : StepFn) (w : Work)
    → find_step seq w.ctx.steps ≡ none
    → run_step env others seq fn w ≡ (err (key_error seq), w)
unfolding run_step is_done
run_step_missing env others seq fn w f = rw f

-- A step of a task, as the database has it.
unfoldable pub step_in : ℕ → ℕ → Db → Option TaskStep
step_in i q db = elim (get_task db i) [ none ↦ none | some t ↦ find_step q t.steps ]

update_step_in :
    (i q : ℕ) (change : TaskStep → TaskStep) (db : Db) (t : Task) (s : TaskStep)
    → get_task db i ≡ some t
    → find_step q t.steps ≡ some s
    → (change s).seq ≡ s.seq
    → ((update_step i q change db).0 ≡ ok tt)
      × (step_in i q (update_step i q change db).1 ≡ some (change s))
unfolding step_in
update_step_in i q change db t s e f k =
    let (new, run, rows, steps, _) = update_step_rows i q change db t s e f k in
    (run, ground (arith, rows i, steps q))

-- How a step's row stands after its body ended with `r`.
unfoldable pub marked : Env → ℕ → Result (Option Fields) → TaskStep → TaskStep
marked env now (ok result) s = completed_with now result s
marked env now (err e) s =
    if runs_again e then back_to_pending s else failed_with now (env.describe e) s

step_ended_marks :
    (env : Env) (i q : ℕ) (r : Result (Option Fields)) (w : Work) (t : Task) (s : TaskStep)
    → get_task w.engine.db i ≡ some t
    → find_step q t.steps ≡ some s
    → ((step_ended env i q r w).0 ≡ r)
      × (step_in i q (step_ended env i q r w).1.engine.db ≡ some (marked env w.engine.db.clock r s))
unfolding step_ended step_raised marked on_db on_ctx complete_step reset_step fail_step
step_ended_marks env i q (ok result) w t s e f =
    let (run, row) =
      update_step_in i q (completed_with w.engine.db.clock result) w.engine.db t s e f refl in
    (ground arith, ground arith)
step_ended_marks env i q (err x) w t s e f =
    let (run, row) = update_step_in i q back_to_pending w.engine.db t s e f refl in
    let text = env.describe x in
    let (run', row') =
      update_step_in i q (failed_with w.engine.db.clock text) w.engine.db t s e f refl in
    elim (Bool-cases (runs_again x)) [
      | inl c ↦ (ground arith, ground arith)
      | inr c ↦ (ground arith, ground arith)
    ]

-- The exceptions after which a step runs again later: the task was cancelled or paused, an approval is
-- awaited, or there is no desktop.
abbrev pub RunsAgain : Exc → Type 0
RunsAgain x =
    (x ≡ task_cancelled)
    ⊎ (x ≡ task_paused)
    ⊎ ((i : ℕ) × (x ≡ approval_pending i))
    ⊎ ((reason : String) × (x ≡ desktop_unavailable reason))

-- How a step's row stands after its body ended with `r` at `now`; its other columns stay.
pub data Marked (env : Env) (now : ℕ) (s : TaskStep)
    : Result (Option Fields) → TaskStep → Type 0 where
  completed :
      (result : Option Fields)
      → Marked env now s
          (ok result)
          (record s { status = done; checkpoint = result; finished_at = some now })
  again :
      (x : Exc)
      → RunsAgain x
      → Marked env now s (err x) (record s { status = pending; started_at = none })
  broken :
      (x : Exc)
      → (RunsAgain x → ⊥)
      → Marked env now s (err x) (record s {
        status = failed;
        error = some (cut 2000 (env.describe x));
        finished_at = some now;
      })

runs_again-RunsAgain : (x : Exc) → runs_again x ≡ true → RunsAgain x
unfolding runs_again
runs_again-RunsAgain task_cancelled h = inl refl
runs_again-RunsAgain task_paused h = inr (inl refl)
runs_again-RunsAgain (approval_pending i) h = inr (inr (inl (i, refl)))
runs_again-RunsAgain (desktop_unavailable reason) h = inr (inr (inr (reason, refl)))
runs_again-RunsAgain _ h = cc

RunsAgain-runs_again : (x : Exc) → RunsAgain x → runs_again x ≡ true
unfolding runs_again
RunsAgain-runs_again x (inl e) = rw e refl
RunsAgain-runs_again x (inr (inl e)) = rw e refl
RunsAgain-runs_again x (inr (inr (inl (i, e)))) = rw e refl
RunsAgain-runs_again x (inr (inr (inr (reason, e)))) = rw e refl

marked-Marked :
    (env : Env) (now : ℕ) (r : Result (Option Fields)) (s : TaskStep)
    → Marked env now s r (marked env now r s)
unfolding marked
marked-Marked env now (ok result) s = completed result
marked-Marked env now (err x) s = elim (Bool-cases (runs_again x)) [
  | inl c ↦ rw c (again x (runs_again-RunsAgain x c))
  | inr c ↦ rw c (broken x (λ k. let bad = RunsAgain-runs_again x k in cc))
]

-- `run_body`, the part of `run_step` that calls the step's function, returns or raises what the function
-- does. The step's row then tells the same: DONE with exactly the checkpoint that was returned; PENDING
-- again after a cancellation, a pause, a wish for an approval or a missing desktop; and FAILED with the
-- error's text, cut at 2000 characters, after any other exception. Asked is that the function has left
-- the task its step.
pub run_body_marks :
    (env : Env) (i q : ℕ) (fn : StepFn) (p : Option Fields) (w : Work) (t : Task) (s : TaskStep)
    → get_task (fn p w).1.engine.db i ≡ some t
    → find_step q t.steps ≡ some s
    → ((run_body env i q fn p w).0 ≡ (fn p w).0)
      × ((s' : TaskStep) × (step_in i q (run_body env i q fn p w).1.engine.db ≡ some s')
          × Marked env (fn p w).1.engine.db.clock s (fn p w).0 s')
unfolding run_body
run_body_marks env i q fn p w t s e f =
    let (run, row) = step_ended_marks env i q (fn p w).0 (fn p w).1 t s e f in
    (run, (_, row, marked-Marked env (fn p w).1.engine.db.clock (fn p w).0 s))
