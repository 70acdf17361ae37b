-- ===== src/Queue/Engine/Execute/Retries.antt =====
-- The bound on retries (core/queue/engine.py, `_retry_or_fail`).
use nova_ai_agent.Prelude.{
  ℕ, ◌≡◌, ◌≤◌, ◌+◌, refl, String, true, some, List, [], ◌∷◌, arith, ltb, if◌then◌else◌, Bool-cases,
  inl, inr, ◌∙◌,
}
use nova_ai_agent.Exec.{ok}
use nova_ai_agent.Queue.States.{TaskState, failed, retrying, can_transition}
use nova_ai_agent.Db.{Task, get_task}
use nova_ai_agent.Db.Rows.{find_task-put_task, find_task-id}
use nova_ai_agent.Queue.Store.{
  Field, retry_count, error_code, error_message, set_fields, moved, save_fields, transition_row,
  transition,
}
use nova_ai_agent.Permissions.Env.{Env}
use nova_ai_agent.Queue.Engine.Work.{Work, on_db}
use nova_ai_agent.Queue.Engine.Execute.{move, retry_row, retry_or_fail}

-- A move that is allowed returns, and the row is the moved one with its fields set.
pub move_saves :
    (i : ℕ) (dst : TaskState) (fs : List Field) (w : Work) (old new : Task)
    → get_task w.engine.db i ≡ some old
    → can_transition old.state dst ≡ true
    → set_fields fs (moved dst w.engine.db.clock old) ≡ ok new
    → new.id ≡ old.id
    → ((move i dst fs w).0 ≡ ok tt) × (get_task (move i dst fs w).1.engine.db i ≡ some new)
unfolding move on_db transition transition_row save_fields
move_saves i dst fs w old new g c f k =
    let at_i = find_task-id i w.engine.db.tasks old g in
    let at_new : new.id ≡ i = k ∙ at_i in
    (
      rw g (rw c (rw f refl)),
      rw g (rw c (rw f (ground (arith, find_task-put_task i new w.engine.db.tasks)))),
    )

-- The rows that `_retry_or_fail` may leave.
abbrev again : ℕ → String → String → Task → Task
again now code message t = record (moved retrying now t) {
  retry_count = t.retry_count + 1;
  error_code = some code;
  error_message = some message;
}

abbrev given_up : ℕ → String → String → Task → Task
given_up now code message t = record (moved failed now t) {
  error_code = some code;
  error_message = some message;
}

-- From a row whose state allows both and whose count is within the configured maximum,
-- `_retry_or_fail` retries a task that has retries left, counting one more, and fails one that has
-- none. It returns, the count stays within the maximum, and the row has the error's code.
pub retry_or_fail_bound :
    (env : Env) (t cur : Task) (code message : String) (w : Work)
    → get_task w.engine.db t.id ≡ some cur
    → can_transition cur.state retrying ≡ true
    → can_transition cur.state failed ≡ true
    → cur.retry_count ≤ env.max_retries
    → (new : Task) × ((retry_or_fail env t code message w).0 ≡ ok tt)
      × (get_task (retry_or_fail env t code message w).1.engine.db t.id ≡ some new)
      × (new.state ≡ (if ltb cur.retry_count env.max_retries then retrying else failed))
      × (new.retry_count
          ≡ (if ltb cur.retry_count env.max_retries then cur.retry_count + 1 else cur.retry_count))
      × (new.retry_count ≤ env.max_retries)
      × (new.error_code ≡ some code)
unfolding retry_or_fail retry_row set_fields moved
retry_or_fail_bound env t cur code message w g c d b =
    elim (Bool-cases (ltb cur.retry_count env.max_retries)) [
      | inl l ↦
          let (r, s) =
            move_saves t.id retrying
              (retry_count (cur.retry_count + 1)
                ∷ error_code (some code)
                ∷ error_message (some message)
                ∷ [])
              w cur _ g c refl refl in
          (
            again w.engine.db.clock code message cur,
            rw g (rw l r),
            rw g (rw l s),
            rw l refl,
            rw l refl,
            ground arith,
            refl,
          )
      | inr l ↦
          let (r, s) =
            move_saves t.id failed (error_code (some code) ∷ error_message (some message) ∷ []) w
              cur _ g d refl refl in
          (
            given_up w.engine.db.clock code message cur,
            rw g (rw l r),
            rw g (rw l s),
            rw l refl,
            rw l refl,
            b,
            refl,
          )
    ]
