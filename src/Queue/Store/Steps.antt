-- ===== src/Queue/Store/Steps.antt =====
-- core/queue/store.py: the steps of a task's plan.
pub mod Progress
use nova_ai_agent.Prelude.{ℕ, suc, ◌+◌, String, Bool, Option, none, some, List, [], ◌∷◌, cut}
use nova_ai_agent.Json.{Json, obj, Fields, end, field}
use nova_ai_agent.Exec.{Exec, Result, ok, err, key_error, pure, raise, modify, proceed, ◌>>=◌}
use nova_ai_agent.Db.{
  StepStatus, pending, current, done, failed, TaskStep, Task, Db, find_task, put_task, get_task,
  save_task, find_step, put_step,
}
use nova_ai_agent.Queue.Store.{Action}

abbrev planned_step : ℕ → String → TaskStep
planned_step seq title = record {
  seq = seq;
  title = cut 200 title;
  status = pending;
  checkpoint = none;
  error = none;
  started_at = none;
  finished_at = none;
}

-- The steps of `enumerate(titles, 1)`, from a first number on.
unfoldable pub planned : ℕ → List String → List TaskStep
planned seq [] = []
planned seq (title ∷ titles) = planned_step seq title ∷ planned (suc seq) titles

unfoldable pub plan_row : List TaskStep → List String → List TaskStep
unfolding planned
plan_row [] titles = planned 1 titles
plan_row (s ∷ ss) titles = s ∷ ss

unfoldable pub ensure_plan_row : Option Task → ℕ → List String → Action (List TaskStep)
unfolding plan_row
ensure_plan_row none task_id titles db = (err (key_error task_id), db)
ensure_plan_row (some t) task_id titles db =
    (ok (plan_row t.steps titles), save_task (record t { steps = plan_row t.steps titles }) db)

-- TaskStore.ensure_plan
unfoldable pub ensure_plan : ℕ → List String → Action (List TaskStep)
unfolding ensure_plan_row
ensure_plan task_id titles db = ensure_plan_row (get_task db task_id) task_id titles db

-- A change of the row that `_step` finds; a missing task or step is a KeyError.
unfoldable pub update_found : Option TaskStep → Task → ℕ → (TaskStep → TaskStep) → Action Unit
update_found none t seq change db = (err (key_error seq), db)
update_found (some s) t seq change db =
    (ok tt, save_task (record t { steps = put_step (change s) t.steps }) db)

unfoldable pub update_row : Option Task → ℕ → (TaskStep → TaskStep) → Action Unit
unfolding update_found
update_row none seq change db = (err (key_error seq), db)
update_row (some t) seq change db = update_found (find_step seq t.steps) t seq change db

unfoldable pub update_step : ℕ → ℕ → (TaskStep → TaskStep) → Action Unit
unfolding update_row
update_step task_id seq change db = update_row (get_task db task_id) seq change db

abbrev pub started : ℕ → TaskStep → TaskStep
started now s = record s { status = current; started_at = some now; error = none }

abbrev pub completed_with : ℕ → Option Fields → TaskStep → TaskStep
completed_with now checkpoint s = record s {
  status = done;
  checkpoint = checkpoint;
  finished_at = some now;
}

abbrev pub with_partial : Fields → TaskStep → TaskStep
with_partial partial s = record s { checkpoint = some (field "partial" (obj partial) end) }

abbrev pub back_to_pending : TaskStep → TaskStep
back_to_pending s = record s { status = pending; started_at = none }

abbrev pub failed_with : ℕ → String → TaskStep → TaskStep
failed_with now error s = record s {
  status = failed;
  error = some (cut 2000 error);
  finished_at = some now;
}

-- TaskStore.start_step
unfoldable pub start_step : ℕ → ℕ → Action Unit
unfolding update_step
start_step task_id seq db = update_step task_id seq (started db.clock) db

-- TaskStore.complete_step
unfoldable pub complete_step : ℕ → ℕ → Option Fields → Action Unit
unfolding update_step
complete_step task_id seq checkpoint db =
    update_step task_id seq (completed_with db.clock checkpoint) db

-- TaskStore.save_partial
unfoldable pub save_partial : ℕ → ℕ → Fields → Action Unit
unfolding update_step
save_partial task_id seq partial db = update_step task_id seq (with_partial partial) db

-- TaskStore.reset_step
unfoldable pub reset_step : ℕ → ℕ → Action Unit
unfolding update_step
reset_step task_id seq db = update_step task_id seq back_to_pending db

-- TaskStore.fail_step
unfoldable pub fail_step : ℕ → ℕ → String → Action Unit
unfolding update_step
fail_step task_id seq error db = update_step task_id seq (failed_with db.clock error) db
