-- ===== src/Queue/Engine/Execute/Settles.antt =====
-- What an execution of core/queue/engine.py does to the state of its task, whatever the executor
-- does and however it fails.
use nova_ai_agent.Prelude.{
  ℕ, ◌≡◌, ◌⊎◌, refl, String, Bool, true, false, Option, none, some, List, [], arith, ltb, inl, inr,
}
use nova_ai_agent.Exec.{
  Exc, task_cancelled, task_paused, task_interrupted, approval_pending, desktop_unavailable,
  task_blocked, permission_denied, policy_denied, Result, ok, err, pure, ◌>>=◌,
}
use nova_ai_agent.Exec.Triples.{After, Triple, bind_rule, pure_rule, raise_rule, if_rule}
use nova_ai_agent.Queue.States.{
  TaskState, paused, failed, cancelled, waiting_approval, waiting_desktop, retrying, is_failed,
}
use nova_ai_agent.Db.{Task, MessageType, info, Db, get_task}
use nova_ai_agent.Queue.Store.{Action, Field, transition}
use nova_ai_agent.Queue.Store.StateAt.{state_at, transition_state}
use nova_ai_agent.Queue.Store.Control.{flags}
use nova_ai_agent.Permissions.Env.{Env}
use nova_ai_agent.Queue.Engine.Work.{
  Verdict, Ctx, Engine, Work, Executor, with_db, on_db, on_ctx, on_engine,
}
use nova_ai_agent.Queue.Engine.Context.{checkpoint, checkpoint_of}
use nova_ai_agent.Queue.Engine.Execute.{
  tell, advance, move, retry_row, retry_or_fail, report_row, report_if_failed, handle,
}

-- A property of the state of task `i`, of a state of the execution.
abbrev pub Holds : ℕ → (Option TaskState → Type 0) → Work → Type 0
Holds i K w = K (state_at i w.engine.db)

module _ (i : ℕ) (K : Option TaskState → Type 0) where
  -- An action on the database that leaves the state of the task.
  pub on_db_rule :
      {A : Type 0} (m : Action A)
      → ((db : Db) → state_at i (m db).1 ≡ state_at i db)
      → Triple (Holds i K) (Holds i K) (on_db m) (λ _. Holds i K)
  unfolding on_db
  on_db_rule {A} m same = record { at = λ w h. by_result (m w.engine.db).0 w (rw same h) }
    where
      by_result :
          (r : Result A) (w : Work)
          → Holds i K (with_db (m w.engine.db).1 w)
          → After (Holds i K) (λ _. Holds i K) r (with_db (m w.engine.db).1 w)
      by_result (ok a) w h = h
      by_result (err e) w h = h

  -- A transition of the task: in the new state if it returns, as before if it raises.
  pub transition_rule :
      (dst : TaskState) (fs : List Field)
      → Triple
          (Holds i K)
          (Holds i K)
          (on_db (transition i dst fs))
          (λ _. Holds i (λ s. s ≡ some dst))
  unfolding on_db
  transition_rule dst fs = record {
    at = λ w h.
        by_result (transition i dst fs w.engine.db).0 w h
          (transition_state i dst fs w.engine.db (transition i dst fs w.engine.db).0 refl);
  }
    where
      by_result :
          (r : Result Task) (w : Work)
          → Holds i K w
          → ((t : Task) → r ≡ ok t → state_at i (transition i dst fs w.engine.db).1 ≡ some dst)
            × (((transition i dst fs w.engine.db).1 ≡ w.engine.db) ⊎ ((t : Task) × (r ≡ ok t)))
          → After
              (Holds i K)
              (λ _. Holds i (λ s. s ≡ some dst))
              r
              (with_db (transition i dst fs w.engine.db).1 w)
      by_result (ok t) w h s = s.0 t refl
      by_result (err e) w h s = elim s.1 [ inl same ↦ rw same h | inr p ↦ cc (p.1) ]

  pub tell_rule :
      (env : Env) (t : Task) (kind : MessageType) (Q : Option TaskState → Type 0)
      → Triple (Holds i K) (Holds i Q) (tell env t kind) (λ _. Holds i Q)
  unfolding tell
  tell_rule env t kind Q = record { at = λ w h. ground arith }

  pub on_ctx_rule : (f : Ctx → Ctx) → Triple (Holds i K) (Holds i K) (on_ctx f) (λ _. Holds i K)
  unfolding on_ctx
  on_ctx_rule f = record { at = λ w h. h }

  -- A transition whose new state has `Q`, when what follows needs `Q` only.
  pub move_rule :
      (dst : TaskState) (fs : List Field) (Q : Option TaskState → Type 0)
      → Q (some dst)
      → Triple (Holds i K) (Holds i K) (move i dst fs) (λ _. Holds i Q)
  unfolding move
  move_rule dst fs Q q =
      bind_rule (on_db (transition i dst fs)) (λ _. pure tt) (transition_rule dst fs)
        (λ _. record { at = λ w h. rw h q })

  pub advance_rule :
      (dst : TaskState)
      → K (some dst)
      → Triple (Holds i K) (Holds i K) (advance i dst) (λ _. Holds i K)
  unfolding advance on_ctx
  advance_rule dst k =
      bind_rule (on_db (transition i dst [])) (λ t. on_ctx (λ c. record c { task = t }))
        (transition_rule dst []) (λ t. record { at = λ w h. rw h k })

-- What is asked of the executor and of the coroutines that run while a checkpoint waits: they keep a
-- property of the state of the task, and a verdict that is returned has `V`.
pub record Obeys (i : ℕ) (K : Option TaskState → Type 0) (V : Verdict → Type 0)
    (others : Engine → Engine) (x : Executor) : Type 0 where
  pub plan : Triple (Holds i K) (Holds i K) x.plan (λ _. Holds i K)
  pub run : Triple (Holds i K) (Holds i K) x.run (λ _. Holds i K)
  pub verify :
      (result : String)
      → Triple (Holds i K) (Holds i K) (x.verify result) (λ v w. Holds i K w × V v)
  pub meanwhile : (e : Engine) → K (state_at i e.db) → K (state_at i (others e).db)

-- The states in which the handlers of `_execute` may leave a task.
pub record Exits (Q : Option TaskState → Type 0) : Type 0 where
  pub at_cancelled : Q (some cancelled)
  pub at_retrying : Q (some retrying)
  pub at_paused : Q (some paused)
  pub at_waiting_approval : Q (some waiting_approval)
  pub at_waiting_desktop : Q (some waiting_desktop)
  pub at_failed : Q (some failed)

module _ (K Q : Option TaskState → Type 0) (V : Verdict → Type 0) (env : Env)
    (others : Engine → Engine) (x : Executor) (t : Task) where
  pub checkpoint_rule :
      ((e : Engine) → K (state_at t.id e.db) → K (state_at t.id (others e).db))
      → Triple (Holds t.id K) (Holds t.id K) (checkpoint others) (λ _. Holds t.id K)
  unfolding checkpoint
  checkpoint_rule keeps = record {
    at = λ w h.
        let (cancel, pause) = flags (others w.engine).db w.ctx.task.id in
        by_flags cancel pause (others w.engine).draining (record w { engine = others w.engine })
          (keeps w.engine h);
  }
    where
      by_flags :
          (cancel pause interrupted : Bool) (w : Work)
          → Holds t.id K w
          → After
              (Holds t.id K)
              (λ _. Holds t.id K)
              (checkpoint_of cancel pause interrupted w).0
              (checkpoint_of cancel pause interrupted w).1
      by_flags true pause interrupted w h = h
      by_flags false true interrupted w h = h
      by_flags false false true w h = h
      by_flags false false false w h = h

  pub retry_or_fail_rule :
      (code message : String)
      → Exits Q
      → Triple (Holds t.id K) (Holds t.id K) (retry_or_fail env t code message) (λ _. Holds t.id Q)
  unfolding retry_or_fail
  retry_or_fail_rule code message q = record {
    at = λ w h. (by_row (get_task w.engine.db t.id)).at w h;
  }
    where
      by_row :
          (o : Option Task)
          → Triple
              (Holds t.id K)
              (Holds t.id K)
              (retry_row env o code message t.id)
              (λ _. Holds t.id Q)
      by_row none = raise_rule _
      by_row (some current) =
          if_rule (ltb current.retry_count env.max_retries) _ _
            (move_rule t.id K retrying _ Q q.at_retrying) (move_rule t.id K failed _ Q q.at_failed)

  pub report_rule :
      Triple (Holds t.id K) (Holds t.id Q) (report_if_failed env t) (λ _. Holds t.id Q)
  unfolding report_if_failed
  report_rule = record { at = λ w h. (by_row (get_task w.engine.db t.id)).at w h }
    where
      by_row :
          (o : Option Task)
          → Triple (Holds t.id K) (Holds t.id Q) (report_row env t o) (λ _. Holds t.id Q)
      by_row none = pure_rule tt
      by_row (some current) =
          if_rule (is_failed current.state) _ _ (tell_rule t.id K env t _ Q) (pure_rule tt)

  -- A move to a state with `Q`, then a message.
  pub move-tell :
      (dst : TaskState) (fs : List Field) (kind : MessageType)
      → Q (some dst)
      → Triple
          (Holds t.id K)
          (Holds t.id K)
          (move t.id dst fs >>= λ _. tell env t kind)
          (λ _. Holds t.id Q)
  move-tell dst fs kind q =
      bind_rule (move t.id dst fs) (λ _. tell env t kind) (move_rule t.id K dst fs Q q)
        (λ _. tell_rule t.id K env t kind Q)

  pub handle_rule :
      (e : Exc)
      → Exits Q
      → Triple (Holds t.id K) (Holds t.id K) (handle env others x t e) (λ _. Holds t.id Q)
  unfolding handle
  handle_rule task_cancelled q = move-tell cancelled _ info q.at_cancelled
  handle_rule task_interrupted q =
      bind_rule (move t.id retrying _) _ (move_rule t.id K retrying _ Q q.at_retrying)
        (λ _. record { at = λ w h. unfold on_engine in h })
  handle_rule task_paused q = move-tell paused [] info q.at_paused
  handle_rule (approval_pending n) q = move_rule t.id K waiting_approval _ Q q.at_waiting_approval
  handle_rule (desktop_unavailable r) q = move-tell waiting_desktop _ _ q.at_waiting_desktop
  handle_rule (task_blocked m) q = move-tell failed _ _ q.at_failed
  handle_rule (permission_denied a r) q = move-tell failed _ _ q.at_failed
  handle_rule (policy_denied m) q = move-tell failed _ _ q.at_failed
  handle_rule e q =
      bind_rule (retry_or_fail env t "STEP_ERROR" (env.describe e)) (λ _. report_if_failed env t)
        (retry_or_fail_rule "STEP_ERROR" (env.describe e) q) (λ _. report_rule)
