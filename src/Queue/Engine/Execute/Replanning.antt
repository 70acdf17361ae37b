-- ===== src/Queue/Engine/Execute/Replanning.antt =====
-- A retry whose planning fails again (core/queue/engine.py, `_execute` and `_retry_or_fail`).
use nova_ai_agent.Prelude.{
  ℕ, ◌≡◌, ◌<◌, ◌+◌, refl, String, Bool, true, false, some, List, [], ◌∷◌, arith, ltb, ap, ◌∙◌,
}
use nova_ai_agent.Exec.{invalid_transition, error, ok, err}
use nova_ai_agent.Queue.States.{TaskState, failed, retrying, can_transition, transitions}
use nova_ai_agent.Db.{Task, get_task}
use nova_ai_agent.Queue.Store.{Field, retry_count, error_code, error_message, transition}
use nova_ai_agent.Queue.Store.Transition.{transition_refused}
use nova_ai_agent.Queue.Store.Control.{flags}
use nova_ai_agent.Queue.Engine.Context.{checkpoint, checkpoint_of}
use nova_ai_agent.Permissions.Env.{Env}
use nova_ai_agent.Queue.Engine.Work.{Engine, Work, Executor, on_db}
use nova_ai_agent.Queue.Engine.Execute.{
  move, retry_row, retry_or_fail, claim, make_plan, plan_if_none, attempt, handle, conclude,
  execute, park, engine_error, context_of, run_picked, set_current,
}
use nova_ai_agent.Queue.Store.StateAt.{state_at, transition_state}
use nova_ai_agent.Queue.Store.Transition.{transition_succeeds, transition_frame}
use nova_ai_agent.Prelude.{lookup}
use nova_ai_agent.Queue.Engine.Execute.{execute_with}

refused_move :
    (i : ℕ) (dst : TaskState) (fs : List Field) (w : Work) (old : Task)
    → get_task w.engine.db i ≡ some old
    → can_transition old.state dst ≡ false
    → move i dst fs w ≡ (err (invalid_transition i old.state dst), w)
unfolding move on_db
refused_move i dst fs w old g c = rw (transition_refused i dst fs w.engine.db old g c) refl

module _ (env : Env) (x : Executor) (t : Task) (text : String)
    (fails : (w : Work) → x.plan w ≡ (err (error text), w)) (at_retry : t.state ≡ retrying) where
  handle_refused :
      (w : Work)
      → get_task w.engine.db t.id ≡ some t
      → ltb t.retry_count env.max_retries ≡ true
      → handle env (λ e. e) x t (error text) w
        ≡ (err (invalid_transition t.id retrying retrying), w)
  unfolding handle retry_or_fail retry_row can_transition
  handle_refused w g l =
      let r =
        refused_move t.id retrying
          (retry_count (t.retry_count + 1)
            ∷ error_code (some "STEP_ERROR")
            ∷ error_message (some (env.describe (error text)))
            ∷ [])
          w t g (rw at_retry refl) in
      rw g (rw l (rw r (rw at_retry refl)))

  checkpoint_passes :
      (w : Work)
      → w.ctx.task ≡ t
      → w.engine.draining ≡ false
      → flags w.engine.db t.id ≡ (false, false)
      → checkpoint (λ e. e) w ≡ (ok tt, w)
  unfolding checkpoint checkpoint_of
  checkpoint_passes w c d f = rw (ap (λ u. flags w.engine.db u.id) c ∙ f) (simp (d))

  claim_skips : (w : Work) → claim env (λ e. e) x t w ≡ (ok tt, w)
  unfolding claim
  claim_skips w = rw at_retry refl

  plan_raises :
      (w : Work)
      → checkpoint (λ e. e) w ≡ (ok tt, w)
      → plan_if_none env (λ e. e) x t [] w ≡ (err (error text), w)
  unfolding plan_if_none make_plan
  plan_raises w c = rw c (rw (fails w) refl)

  attempt_refused :
      (w : Work)
      → w.ctx.steps ≡ []
      → checkpoint (λ e. e) w ≡ (ok tt, w)
      → attempt env (λ e. e) x t w ≡ (err (error text), w)
  unfolding attempt
  attempt_refused w s c = rw (claim_skips w) (simp (s, plan_raises w c))

  execute_refused :
      (w : Work)
      → w.ctx.task ≡ t
      → w.ctx.steps ≡ []
      → w.engine.draining ≡ false
      → flags w.engine.db t.id ≡ (false, false)
      → get_task w.engine.db t.id ≡ some t
      → ltb t.retry_count env.max_retries ≡ true
      → execute env (λ e. e) x t w ≡ (err (invalid_transition t.id retrying retrying), w)
  unfolding execute conclude
  execute_refused w c s d f g l =
      rw (attempt_refused w s (checkpoint_passes w c d f)) (handle_refused w g l)

  parked_failed :
      (e : Engine)
      → get_task e.db t.id ≡ some t
      → state_at t.id (transition t.id failed engine_error e.db).1 ≡ some failed
  unfolding can_transition transitions
  parked_failed e g =
      let (new, r) =
        transition_succeeds t.id failed engine_error e.db t (tt, tt) g (rw at_retry refl) in
      (transition_state t.id failed engine_error e.db (ok new) r).0 new refl

  refused_at_start :
      (gated fast : Bool) (e : Engine)
      → t.steps ≡ []
      → e.draining ≡ false
      → flags e.db t.id ≡ (false, false)
      → get_task e.db t.id ≡ some t
      → ltb t.retry_count env.max_retries ≡ true
      → let w : Work = record {
        ctx = context_of gated t;
        engine = set_current fast (some t.id) e;
      } in
        execute env (λ e. e) x t w ≡ (err (invalid_transition t.id retrying retrying), w)
  unfolding context_of
  refused_at_start gated true e s d f g l = execute_refused _ refl s d f g l
  refused_at_start gated false e s d f g l = execute_refused _ refl s d f g l

  -- A task that is RETRYING and has no steps yet is planned again. If its executor's planning raises
  -- an ordinary exception and changes nothing, then the round fails the task, although it has retries
  -- left, and sends no message. The engine does not drain, no cancel or pause is requested, and no
  -- other coroutine changes anything meanwhile.
  pub replanning_not_retried :
      (xs : List (String × Executor)) (gated fast : Bool) (e : Engine)
      → lookup t.task_type xs ≡ some x
      → t.steps ≡ []
      → e.draining ≡ false
      → flags e.db t.id ≡ (false, false)
      → get_task e.db t.id ≡ some t
      → t.retry_count < env.max_retries
      → let e' = (run_picked env (λ e. e) xs gated fast (some t) e).1 in
        (state_at t.id e'.db ≡ some failed) × (e'.db.notices ≡ e.db.notices)
  unfolding run_picked execute_with park
  replanning_not_retried xs gated true e k s d f g l =
      rw (k, refused_at_start gated true e s d f g (ground arith))
        (parked_failed e g, rw (transition_frame t.id failed engine_error e.db) refl)
  replanning_not_retried xs gated false e k s d f g l =
      rw (k, refused_at_start gated false e s d f g (ground arith))
        (parked_failed e g, rw (transition_frame t.id failed engine_error e.db) refl)
