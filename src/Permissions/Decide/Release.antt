-- ===== src/Permissions/Decide/Release.antt =====
-- What the release of a waiting task writes (core/permissions/approvals.py).
use nova_ai_agent.Prelude.{ℕ, ◌≡◌, none, some, arith, if◌then◌else◌}
use nova_ai_agent.Exec.{ok}
use nova_ai_agent.Queue.States.{retrying, cancelled, can_transition, is_waiting_approval}
use nova_ai_agent.Db.{Task, Db, get_task, save_task}
use nova_ai_agent.Queue.Store.{set_fields, moved, transition}
use nova_ai_agent.Queue.Store.Transition.{transition_frame}
use nova_ai_agent.Permissions.Approvals.{DecisionOutcome, was_approved, was_rejected}
use nova_ai_agent.Permissions.Decide.{released_state, released_fields, wake, release_task}

-- The row of a waiting task after its release.
abbrev pub released_row : DecisionOutcome → ℕ → Task → Task
released_row was_approved now t = record (moved retrying now t) { error_code = none }
released_row was_rejected now t = record (moved cancelled now t) {
  error_code = some "REJECTED_BY_USER";
}
released_row _ now t = record (moved cancelled now t) { error_code = some "APPROVAL_EXPIRED" }

-- The release of a task that exists never raises. It moves a task that waits for an approval, to
-- RETRYING after an approval and to CANCELLED otherwise, and wakes the dispatcher; any other task is
-- left alone.
pub release_task_row :
    (i : ℕ) (o : DecisionOutcome) (db : Db) (t : Task)
    → get_task db i ≡ some t
    → release_task i o db ≡ (
        if is_waiting_approval t.state
        then (ok tt, wake (save_task (released_row o db.clock t) db))
        else (ok tt, db))
unfolding release_task transition set_fields released_state released_fields can_transition
release_task_row i o db t h = ground arith

-- A release writes to the table of tasks and to the wake flag only.
pub release_task_frame :
    (i : ℕ) (o : DecisionOutcome) (db : Db)
    → (release_task i o db).1
      ≡ record db { tasks = (release_task i o db).1.tasks; woken = (release_task i o db).1.woken }
unfolding release_task
release_task_frame i o db =
    ground (arith, transition_frame i (released_state o) (released_fields o) db)
