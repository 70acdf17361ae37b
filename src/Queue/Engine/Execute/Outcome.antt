-- ===== src/Queue/Engine/Execute/Outcome.antt =====
-- Where a round of the dispatcher (core/queue/engine.py) leaves the task that it ran.
use nova_ai_agent.Prelude.{
  ℕ, ◌≡◌, refl, String, Bool, true, false, Option, none, some, List, [], ◌∷◌, ltb, leb,
  if◌then◌else◌,
}
use nova_ai_agent.Exec.{Result, ok, err, pure}
use nova_ai_agent.Exec.Triples.{After, Triple, bind_rule, pure_rule, if_rule}
use nova_ai_agent.Queue.States.{
  TaskState, planning, running, verifying, completed, failed, is_received, is_retrying,
}
use nova_ai_agent.Db.{TaskStep, Task, info, get_task}
use nova_ai_agent.Queue.Store.StateAt.{reset_step_state, ensure_plan_state}
use nova_ai_agent.Queue.Store.Steps.{ensure_plan, reset_step}
use nova_ai_agent.Permissions.Env.{Env}
use nova_ai_agent.Queue.Engine.Work.{
  VerdictStatus, pass, limited, needs_work, blocked, inconclusive, Verdict, final, verdict_text,
  Engine, Work, Executor, on_db, on_ctx,
}
use nova_ai_agent.Queue.Engine.Context.{checkpoint}
use nova_ai_agent.Queue.Engine.Execute.{
  advance, retry_or_fail, report_if_failed, claim, plan_if_none, work_and_verify, attempt,
  reset_from, redo_row, tell_retry, conclude_by, conclude, execute,
}
use nova_ai_agent.Queue.Engine.Execute.Settles.{
  Holds, Obeys, Exits, on_db_rule, tell_rule, on_ctx_rule, advance_rule, checkpoint_rule,
  retry_or_fail_rule, report_rule, move-tell, handle_rule,
}

-- The verdicts after which a task is completed.
unfoldable pub completes : VerdictStatus → Bool
completes pass = true
completes limited = true
completes inconclusive = true
completes _ = false

module _ (K Q : Option TaskState → Type 0) (V : Verdict → Type 0) (env : Env)
    (others : Engine → Engine) (x : Executor) (t : Task) where
  -- The states that `_execute` passes through.
  pub record Passes : Type 0 where
    pub at_planning : K (some planning)
    pub at_running : K (some running)
    pub at_verifying : K (some verifying)

  plan_rule :
      Obeys t.id K V others x
      → (ss : List TaskStep)
      → Triple (Holds t.id K) (Holds t.id K) (plan_if_none env others x t ss) (λ _. Holds t.id K)
  unfolding plan_if_none
  plan_rule o [] =
      bind_rule (checkpoint others) _ (checkpoint_rule K Q V env others x t o.meanwhile) (λ _.
        bind_rule x.plan _ o.plan (λ titles.
          bind_rule (on_db (ensure_plan t.id titles))
            (λ steps. on_ctx (λ c. record c { steps = steps }))
            (on_db_rule t.id K (ensure_plan t.id titles) (ensure_plan_state t.id titles t.id))
            (λ steps. on_ctx_rule t.id K (λ c. record c { steps = steps }))))
  plan_rule o (s ∷ ss) = pure_rule tt

  work_rule :
      Obeys t.id K V others x
      → Passes
      → Triple
          (Holds t.id K)
          (Holds t.id K)
          (work_and_verify env others x t)
          (λ p w. Holds t.id K w × V p.1)
  unfolding work_and_verify
  work_rule o k =
      bind_rule (advance t.id running) _ (advance_rule t.id K running k.at_running) (λ _.
        bind_rule x.run _ o.run (λ result.
          bind_rule (checkpoint others) _ (checkpoint_rule K Q V env others x t o.meanwhile) (λ _.
            bind_rule (advance t.id verifying) _ (advance_rule t.id K verifying k.at_verifying)
              (λ _.
                bind_rule (x.verify result) (λ v. pure (result, v)) (o.verify result)
                  (λ v. record { at = λ w h. h })))))

  attempt_rule :
      Obeys t.id K V others x
      → Passes
      → Triple
          (Holds t.id K)
          (Holds t.id K)
          (attempt env others x t)
          (λ p w. Holds t.id K w × V p.1)
  unfolding attempt
  attempt_rule o k =
      bind_rule (claim env others x t) _
        (if_rule (is_received t.state) _ _ (advance_rule t.id K planning k.at_planning)
          (pure_rule tt))
        (λ _. record {
          at = λ w h.
              (bind_rule (plan_if_none env others x t w.ctx.steps)
                  (λ _. work_and_verify env others x t) (plan_rule o w.ctx.steps)
                  (λ _. work_rule o k)).at
                w h;
        })

  reset_rule :
      (first : ℕ) (ss : List TaskStep)
      → Triple
          (Holds t.id K)
          (Holds t.id K)
          (reset_from env others x t first ss)
          (λ _. Holds t.id K)
  unfolding reset_from
  reset_rule first [] = pure_rule tt
  reset_rule first (s ∷ ss) =
      bind_rule (if leb first s.seq then on_db (reset_step t.id s.seq) else pure tt) _
        (if_rule (leb first s.seq) _ _
          (on_db_rule t.id K (reset_step t.id s.seq) (reset_step_state t.id s.seq t.id))
          (pure_rule tt))
        (λ _. reset_rule first ss)

  redo_rule :
      (from : Option ℕ) (o : Option Task)
      → Triple (Holds t.id K) (Holds t.id K) (redo_row env others x t from o) (λ _. Holds t.id K)
  unfolding redo_row
  redo_rule (some first) (some current) =
      if_rule (ltb current.retry_count env.max_retries) _ _ (reset_rule first current.steps)
        (pure_rule tt)
  redo_rule none o = pure_rule tt
  redo_rule (some first) none = pure_rule tt

  tell_retry_rule :
      (o : Option Task)
      → Triple (Holds t.id K) (Holds t.id Q) (tell_retry env others x t o) (λ _. Holds t.id Q)
  unfolding tell_retry
  tell_retry_rule none = pure_rule tt
  tell_retry_rule (some after) =
      if_rule (is_retrying after.state) _ _ (tell_rule t.id K env t info Q) (pure_rule tt)

  -- The rounds after a verdict that asks for more work.
  needs_work_rule :
      Exits Q
      → (result : String) (v : Verdict)
      → Triple
          (Holds t.id K)
          (Holds t.id K)
          (conclude_by env others x t needs_work result v)
          (λ _. Holds t.id Q)
  unfolding conclude_by
  needs_work_rule q result v = record {
    at = λ w h.
        (bind_rule (redo_row env others x t v.redo_from (get_task w.engine.db t.id)) _
            (redo_rule v.redo_from (get_task w.engine.db t.id))
            (λ _.
              bind_rule (retry_or_fail env t "VERIFICATION_FAILED" (verdict_text v)) _
                (retry_or_fail_rule K Q V env others x t "VERIFICATION_FAILED" (verdict_text v) q)
                (λ _. record {
                  at = λ w' h'.
                      (bind_rule (tell_retry env others x t (get_task w'.engine.db t.id))
                          (λ _. report_if_failed env t)
                          (tell_retry_rule (get_task w'.engine.db t.id))
                          (λ _. report_rule K Q V env others x t)).at
                        w' h';
                }))).at
          w h;
  }

  conclude_by_rule :
      Exits Q
      → (f : VerdictStatus) (result : String) (v : Verdict)
      → (completes f ≡ true → Q (some completed))
      → Triple
          (Holds t.id K)
          (Holds t.id K)
          (conclude_by env others x t f result v)
          (λ _. Holds t.id Q)
  unfolding conclude_by completes
  conclude_by_rule q pass result v c = move-tell K Q V env others x t completed _ _ (c refl)
  conclude_by_rule q limited result v c = move-tell K Q V env others x t completed _ _ (c refl)
  conclude_by_rule q inconclusive result v c = move-tell K Q V env others x t completed _ _ (c refl)
  conclude_by_rule q blocked result v c = move-tell K Q V env others x t failed _ _ q.at_failed
  conclude_by_rule q needs_work result v c = needs_work_rule q result v

  conclude_rule :
      Exits Q
      → ((v : Verdict) → V v → completes (final v) ≡ true → Q (some completed))
      → (r : Result (String × Verdict)) (w : Work)
      → After (Holds t.id K) (λ p w. Holds t.id K w × V p.1) r w
      → After
          (Holds t.id K)
          (λ _. Holds t.id Q)
          (conclude env others x t r w).0
          (conclude env others x t r w).1
  unfolding conclude
  conclude_rule q c (ok (result, v)) w h =
      (conclude_by_rule q (final v) result v (c v h.1)).at w h.0
  conclude_rule q c (err e) w h = (handle_rule K Q V env others x t e q).at w h

  pub execute_rule :
      Obeys t.id K V others x
      → Passes
      → Exits Q
      → ((v : Verdict) → V v → completes (final v) ≡ true → Q (some completed))
      → Triple (Holds t.id K) (Holds t.id K) (execute env others x t) (λ _. Holds t.id Q)
  unfolding execute
  execute_rule o k q c = record {
    at = λ w h.
        conclude_rule q c (attempt env others x t w).0 (attempt env others x t w).1
          ((attempt_rule o k).at w h);
  }
