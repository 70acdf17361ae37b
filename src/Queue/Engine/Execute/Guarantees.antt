-- ===== src/Queue/Engine/Execute/Guarantees.antt =====
-- What a round of the dispatcher (core/queue/engine.py) guarantees of the task that it picks.
use nova_ai_agent.Prelude.{
  ℕ, ◌≡◌, ◌⊎◌, refl, String, Bool, true, false, ◌||◌, Option, none, some, List, arith, All, inl,
  inr, lookup,
}
use nova_ai_agent.Exec.{Exc, Result, ok, err}
use nova_ai_agent.Queue.States.{
  TaskState, planning, running, verifying, completed, failed, retrying, paused, waiting_approval,
  waiting_desktop, cancelled, active, runnable,
}
use nova_ai_agent.Db.{Task, Db, get_task}
use nova_ai_agent.Queue.Store.{transition, next_runnable, eligible, str_mem}
use nova_ai_agent.Queue.Store.Control.{is_queue_paused}
use nova_ai_agent.Queue.Store.StateAt.{state_at, transition_state}
use nova_ai_agent.Queue.Store.Invariant.{IsTable}
use nova_ai_agent.Queue.Store.Order.{FoundIn, IsOrdered-FoundIn}
use nova_ai_agent.Queue.Store.Picking.{next_runnable_first}
use nova_ai_agent.Permissions.Env.{Env}
use nova_ai_agent.Queue.Engine.Work.{Engine, Executor}
use nova_ai_agent.Queue.Engine.Execute.{park, engine_error, names, lane_priority, run_once}
use nova_ai_agent.Queue.Engine.Execute.Settles.{Obeys, Exits}
use nova_ai_agent.Queue.Engine.Execute.Outcome.{Passes, execute_rule}
use nova_ai_agent.Queue.Engine.Execute.Rounds.{
  Exists, Rests, AnyVerdict, NotCompleted, Unaccepted, All-mem, lookup-All, names-lookup,
  park-Rests, run_picked_rule,
}

eligible-type :
    (types : List String) (low : Option ℕ) (t : Task)
    → eligible types low t ≡ true
    → (str_mem t.task_type types ≡ true) × (runnable t.state ≡ true)
unfolding eligible
eligible-type types none t h = ground arith
eligible-type types (some n) t h = ground arith

-- The picked row is the one found at its id, it has an executor, and it is runnable.
picked :
    (xs : List (String × Executor)) (low : Option ℕ) (db : Db) (t : Task)
    → IsTable db
    → next_runnable (names xs) low db ≡ some t
    → (get_task db t.id ≡ some t)
      × ((x : Executor) × (lookup t.task_type xs ≡ some x))
      × (runnable t.state ≡ true)
picked xs low db t h e =
    let (m, g, _) = next_runnable_first (names xs) low db t e in
    let (k, r) = eligible-type (names xs) low t g in
    (
      All-mem (FoundIn db.tasks) db.tasks t (IsOrdered-FoundIn 0 db.tasks db.next_task h.ordered) m,
      names-lookup t.task_type xs k,
      r,
    )

NotCompleted-park :
    (i : ℕ) (x : Exc) (e : Engine) (o : Option Task)
    → get_task e.db i ≡ o
    → NotCompleted (state_at i e.db)
    → NotCompleted (state_at i (park i (err x) e).db)
unfolding park
NotCompleted-park i x e o g h =
    by_result (transition i failed engine_error e.db).0
      (transition_state i failed engine_error e.db (transition i failed engine_error e.db).0 refl)
  where
    by_result :
        (r : Result Task)
        → ((t : Task)
            → r ≡ ok t
            → state_at i (transition i failed engine_error e.db).1 ≡ some failed)
          × (((transition i failed engine_error e.db).1 ≡ e.db) ⊎ ((t : Task) × (r ≡ ok t)))
        → NotCompleted (state_at i (transition i failed engine_error e.db).1)
    by_result (ok t) s = rw (s.0 t refl) (λ p. cc)
    by_result (err y) s = elim s.1 [ inl same ↦ rw same h | inr p ↦ cc (p.1) ]

runnable_open : (s : TaskState) → runnable s ≡ true → NotCompleted (some s)
unfolding runnable
runnable_open s h = λ p. ground arith

module _ (env : Env) (others : Engine → Engine) (xs : List (String × Executor)) (gated fast : Bool)
    (e : Engine) where
  -- Nothing runs, and nothing changes, while the engine drains or the queue is paused.
  pub run_once_idle :
      (e.draining || is_queue_paused e.db) ≡ true → run_once env others xs gated fast e ≡ (false, e)
  unfolding run_once
  run_once_idle h = rw h

  module _ (t : Task) (table : IsTable e.db)
      (open_queue : (e.draining || is_queue_paused e.db) ≡ false)
      (next : next_runnable (names xs) (lane_priority fast) e.db ≡ some t) where
    -- When the dispatcher is open and a task of a well-formed table is next, the round runs it. If the
    -- executors and the coroutines beside them do not delete the task, then however they work and fail,
    -- the task rests afterwards: it exists, and is neither RECEIVED, PLANNING, RUNNING nor VERIFYING.
    pub run_once_settles :
        All (λ p. Obeys t.id Exists AnyVerdict others p.1) xs
        → ((run_once env others xs gated fast e).0 ≡ true)
          × Rests (state_at t.id (run_once env others xs gated fast e).1.db)
    unfolding run_once active
    run_once_settles o =
        let (found, (x, l), r) = picked xs (lane_priority fast) e.db t table next in
        let obeys = lookup-All (λ x. Obeys t.id Exists AnyVerdict others x) t.task_type xs x o l in
        let passes : Passes Exists Rests AnyVerdict env others x t = record {
          at_planning = (planning, refl);
          at_running = (running, refl);
          at_verifying = (verifying, refl);
        } in
        let exits : Exits Rests = record {
          at_cancelled = (cancelled, refl, refl, refl);
          at_retrying = (retrying, refl, refl, refl);
          at_paused = (paused, refl, refl, refl);
          at_waiting_approval = (waiting_approval, refl, refl, refl);
          at_waiting_desktop = (waiting_desktop, refl, refl, refl);
          at_failed = (failed, refl, refl, refl);
        } in
        let rule =
          execute_rule Exists Rests AnyVerdict env others x t obeys passes exits
            (λ v _ _. (completed, refl, refl, refl)) in
        (
          rw (open_queue, next),
          rw (open_queue, next)
              (run_picked_rule Exists Rests AnyVerdict env others xs t gated fast x e l rule
                (λ y e h. park-Rests t.id y e (get_task e.db t.id) refl h) (t.state, rw found)),
        )

    -- When the dispatcher is open and a task of a well-formed table is next, the round completes it
    -- only by a verdict: if the executors and the coroutines beside them do not complete it themselves,
    -- and every verdict that is returned is NEEDS WORK or BLOCKED, then the task is not COMPLETED
    -- afterwards.
    pub run_once_needs_verdict :
        All (λ p. Obeys t.id NotCompleted Unaccepted others p.1) xs
        → NotCompleted (state_at t.id (run_once env others xs gated fast e).1.db)
    unfolding run_once
    run_once_needs_verdict o =
        let (found, (x, l), r) = picked xs (lane_priority fast) e.db t table next in
        let obeys =
          lookup-All (λ x. Obeys t.id NotCompleted Unaccepted others x) t.task_type xs x o l in
        let passes : Passes NotCompleted NotCompleted Unaccepted env others x t = record {
          at_planning = λ p. cc;
          at_running = λ p. cc;
          at_verifying = λ p. cc;
        } in
        let exits : Exits NotCompleted = record {
          at_cancelled = λ p. cc;
          at_retrying = λ p. cc;
          at_paused = λ p. cc;
          at_waiting_approval = λ p. cc;
          at_waiting_desktop = λ p. cc;
          at_failed = λ p. cc;
        } in
        let rule =
          execute_rule NotCompleted NotCompleted Unaccepted env others x t obeys passes exits
            (λ v u c. cc) in
        rw (open_queue, next)
          (run_picked_rule NotCompleted NotCompleted Unaccepted env others xs t gated fast x e l
            rule (λ y e h. NotCompleted-park t.id y e (get_task e.db t.id) refl h)
            (rw found (runnable_open t.state r)))
