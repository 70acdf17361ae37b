-- ===== src/Tests/Dispatch.antt =====
-- The theorems on the task engine, at concrete inputs.
use nova_ai_agent.Prelude.{
  ℕ, ◌≡◌, ◌≤◌, ◌+◌, refl, String, Bool, true, false, Option, none, some, List, [], ◌∷◌, arith, ltb,
  if◌then◌else◌,
}
use nova_ai_agent.Exec.{ok, pure}
use nova_ai_agent.Exec.Triples.{pure_rule}
use nova_ai_agent.Queue.States.{TaskState, failed, retrying, terminal, can_transition}
use nova_ai_agent.Db.{TaskStep, current, Task, get_task, find_task, find_step}
use nova_ai_agent.Queue.Store.{next_runnable, first_by_order, first_of_two, eligible}
use nova_ai_agent.Queue.Store.Control.{is_queue_paused, flags}
use nova_ai_agent.Queue.Store.StateAt.{state_at}
use nova_ai_agent.Queue.Store.Invariant.{IsTable}
use nova_ai_agent.Queue.Engine.Work.{Verdict, Engine, Executor, final}
use nova_ai_agent.Queue.Engine.Context.{StepFn, run_body}
use nova_ai_agent.Queue.Engine.Context.Resume.{step_in, Marked, run_body_marks}
use nova_ai_agent.Queue.Engine.Execute.{retry_or_fail, run_once, run_picked}
use nova_ai_agent.Queue.Engine.Execute.Settles.{Obeys}
use nova_ai_agent.Queue.Engine.Execute.Outcome.{completes}
use nova_ai_agent.Queue.Engine.Execute.Rounds.{Exists, Rests, AnyVerdict, NotCompleted, Unaccepted}
use nova_ai_agent.Queue.Engine.Execute.Guarantees.{run_once_settles, run_once_needs_verdict}
use nova_ai_agent.Queue.Engine.Execute.Retries.{retry_or_fail_bound}
use nova_ai_agent.Queue.Engine.Execute.Replanning.{replanning_not_retried}
use nova_ai_agent.Tests.Sample.{
  step, running_task, retried_task, db, env, engine, work, accepted, refused, worker, broken,
}

db-IsTable : IsTable db
unfolding terminal
db-IsTable = record { rows = ground arith; ordered = ground arith }

-- The worker keeps any property of the state of a task.
worker-Obeys :
    (i : ℕ) (K : Option TaskState → Type 0) (V : Verdict → Type 0) (v : Verdict)
    → V v
    → Obeys i K V (λ e. e) (worker v)
worker-Obeys i K V v h = record {
  plan = pure_rule ("look" ∷ "act" ∷ []);
  run = pure_rule "result";
  verify = λ result. record { at = λ w k. (k, h) };
  meanwhile = λ e k. k;
}

abbrev workers : Verdict → List (String × Executor)
workers v = ("demo", worker v) ∷ []

-- The engine with no executor but the worker.
abbrev round : Verdict → Bool × Engine
round v = run_once env (λ e. e) (workers v) true false (engine db)

run_once_settles_example : ((round accepted).0 ≡ true) × Rests (state_at 4 (round accepted).1.db)
unfolding next_runnable first_by_order eligible first_of_two is_queue_paused
run_once_settles_example =
    run_once_settles env (λ e. e) (workers accepted) true false (engine db) retried_task db-IsTable
      refl refl (worker-Obeys 4 Exists AnyVerdict accepted tt, tt)

run_once_needs_verdict_example : NotCompleted (state_at 4 (round refused).1.db)
unfolding next_runnable first_by_order eligible first_of_two is_queue_paused final completes
run_once_needs_verdict_example =
    run_once_needs_verdict env (λ e. e) (workers refused) true false (engine db) retried_task
      db-IsTable refl refl (worker-Obeys 4 NotCompleted Unaccepted refused refl, tt)

retry_or_fail_bound_example :
    let w = work db running_task in
    (new : Task) × ((retry_or_fail env running_task "STEP_ERROR" "failed" w).0 ≡ ok tt)
    × (get_task (retry_or_fail env running_task "STEP_ERROR" "failed" w).1.engine.db 2 ≡ some new)
    × (new.state ≡ (if ltb 0 3 then retrying else failed))
    × (new.retry_count ≡ (if ltb 0 3 then 0 + 1 else 0))
    × (new.retry_count ≤ 3)
    × (new.error_code ≡ some "STEP_ERROR")
unfolding find_task can_transition
retry_or_fail_bound_example =
    retry_or_fail_bound env running_task running_task "STEP_ERROR" "failed" (work db running_task)
      refl refl refl (omega arith)

replanning_not_retried_example :
    let e' =
      (run_picked env
        (λ e. e)
        (("demo", broken) ∷ [])
        true
        false
        (some retried_task)
        (engine db)).1 in
    (state_at 4 e'.db ≡ some failed) × (e'.db.notices ≡ db.notices)
unfolding find_task flags
replanning_not_retried_example =
    replanning_not_retried env broken retried_task "no plan" (λ w. refl) refl
      (("demo", broken) ∷ []) true false (engine db) refl refl refl refl refl (omega arith)

-- A body that has nothing to do.
abbrev idle : StepFn
idle previous = pure none

run_body_marks_example :
    let w = work db running_task in
    ((run_body env 2 1 idle none w).0 ≡ (idle none w).0)
    × ((s' : TaskStep) × (step_in 2 1 (run_body env 2 1 idle none w).1.engine.db ≡ some s')
        × Marked env 10 (step 1 current) (ok none) s')
unfolding find_task find_step
run_body_marks_example =
    run_body_marks env 2 1 idle none (work db running_task) running_task (step 1 current) refl refl
