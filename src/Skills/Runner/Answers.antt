-- ===== src/Skills/Runner/Answers.antt =====
-- What a call of core/skills/runner.py leaves in the ledger, and what a later call for the same effect
-- is told.
use mathlib.Core.Path.{subst}
use nova_ai_agent.Prelude.{
  ℕ, ◌≡◌, ◌≢◌, refl, sym, ◌∙◌, ap, String, true, ◌&&◌, Option, none, some, arith,
}
use nova_ai_agent.Exec.{task_blocked, Exc, Result, ok, err, proceed}
use nova_ai_agent.Exec.Returns.{bind_ok}
use nova_ai_agent.Db.{EffectStatus, pending, done, failed, SideEffect}
use nova_ai_agent.Permissions.Env.{Env}
use nova_ai_agent.Queue.Engine.Work.{Work}
use nova_ai_agent.Queue.Engine.Require.{require}
use nova_ai_agent.Skills.Ledger.{by_key, is_side_effect, effect_key, entry_of, lookup_effect}
use nova_ai_agent.Skills.Ledger.Writes.{HasLedger}
use nova_ai_agent.Skills.Api.{ToolResult}
use nova_ai_agent.Skills.Prepare.{SkillRunner, Invocation, Prepared, prepare}
use nova_ai_agent.Skills.Prepare.Checks.{QuietRegistry, Found-QuietTool, prepare-Quiet}
use nova_ai_agent.Skills.Prepare.Checked.{prepare-Checked}
use nova_ai_agent.Skills.Quiet.{Still, QuietTool}
use nova_ai_agent.Skills.Runner.{
  ask_of, run_tool, perform, already_done, stopped, by_status, by_entry, key_of, pass_ledger,
  invoke,
}
use nova_ai_agent.Skills.Runner.Effects.{Stands, unchanged, gate-Quiet, Leaves, run_tool-Leaves}
use nova_ai_agent.Skills.Runner.Calls.{IsClosed, SameEffect}

-- The gate lets the call through.
abbrev pub Passes : Env → Invocation → Prepared → Work → Type 0
Passes env c x w = (require env (ask_of env c x) w).0 ≡ ok tt

-- The call comes to the ledger.
abbrev pub IsRecorded : SkillRunner → Prepared → Type 0
IsRecorded r x = (r.has_ledger && is_side_effect x.action) ≡ true

-- What a call is told of an effect that is closed.
abbrev pub answer : Prepared → EffectStatus → String → Result ToolResult
answer x pending summary = err (task_blocked (stopped x))
answer x _ summary = ok (already_done summary)

module _ (env : Env) (r : SkillRunner) (c : Invocation) (x : Prepared) (q : QuietTool x.tool) where
  perform-Leaves :
      (k : String) (w : Work)
      → HasLedger w.engine.db
      → ((e : Exc) → (perform env r c x (some k) w).0 ≡ err e → Passes env c x w)
      → Leaves w.ctx.task.id k (perform env r c x (some k) w).0 (perform env r c x (some k) w).1
  unfolding perform
  perform-Leaves k w h g = by_gate (require env (ask_of env c x) w).0 refl g (
      ((gate-Quiet env c x q).keeps w.ctx.task.id w.engine.db.effects w.engine.db.next_effect).at w
        (unchanged w))
    where
      by_gate :
          (o : Result (Unit {0}))
          → (require env (ask_of env c x) w).0 ≡ o
          → {v : Work}
          → ((e : Exc)
              → (proceed o (λ u. run_tool env r c x (some k)) v).0 ≡ err e
              → Passes env c x w)
          → Still w.ctx.task.id w.engine.db.effects w.engine.db.next_effect v
          → Leaves w.ctx.task.id k
              (proceed o (λ u. run_tool env r c x (some k)) v).0
              (proceed o (λ u. run_tool env r c x (some k)) v).1
      by_gate (err e) f {v} g s = let bad = g e refl in cc
      by_gate (ok u) f {v} g s =
          subst
            (λ j. Leaves j k (run_tool env r c x (some k) v).0 (run_tool env r c x (some k) v).1)
            s.task (run_tool-Leaves env r c x k v q (rw (s.effects.rows, s.effects.next) h))

  by_entry-Leaves :
      (k : String) (o : Option SideEffect) (w : Work)
      → HasLedger w.engine.db
      → by_key w.ctx.task.id k w.engine.db.effects ≡ o
      → ((e : Exc) → (by_entry env r c x k (entry_of o) w).0 ≡ err e → Passes env c x w)
      → Leaves w.ctx.task.id k
          (by_entry env r c x k (entry_of o) w).0
          (by_entry env r c x k (entry_of o) w).1
  unfolding by_entry by_status
  by_entry-Leaves k none w h e g = perform-Leaves k w h g
  by_entry-Leaves k (some found) w h e g = by_status_of _ found.status refl g
    where
      here : Stands w.ctx.task.id k found w
      here = record { task = refl; ordered = h; at_key = e }

      by_status_of :
          (summary : String) (t : EffectStatus)
          → found.status ≡ t
          → ((e : Exc) → (by_status env r c x k t summary w).0 ≡ err e → Passes env c x w)
          → Leaves w.ctx.task.id k
              (by_status env r c x k t summary w).0
              (by_status env r c x k t summary w).1
      by_status_of summary done f g = record {
        row = found;
        stands = here;
        returned = λ t p. let yes : t.ok ≡ true = ground arith in ground (arith, f, yes);
        raised = λ d p. cc;
      }
      by_status_of summary pending f g = record {
        row = found;
        stands = here;
        returned = λ t p. cc;
        raised = λ d p. f;
      }
      by_status_of summary failed f g = perform-Leaves k w h g

  pass_ledger-by_entry :
      (w : Work)
      → IsRecorded r x
      → pass_ledger env r c x w
        ≡ by_entry env r c x
            (key_of env x)
            (entry_of (by_key w.ctx.task.id (key_of env x) w.engine.db.effects))
            w
  unfolding pass_ledger lookup_effect
  pass_ledger-by_entry w l = rw l refl

  pass_ledger_closed :
      (row : SideEffect) (w : Work)
      → IsRecorded r x
      → IsClosed row
      → Stands w.ctx.task.id (key_of env x) row w
      → (summary : String) × (pass_ledger env r c x w ≡ (answer x row.status summary, w))
  unfolding by_entry by_status
  pass_ledger_closed row w l n s =
      let (summary, e) = by_status_of row.status _ n in
      (
        summary,
        pass_ledger-by_entry w l
            ∙ ap (λ o. by_entry env r c x (key_of env x) (entry_of o) w) s.at_key
            ∙ e,
      )
    where
      by_status_of :
          (t : EffectStatus) (summary : String)
          → t ≢ failed
          → (s : String) × (by_status env r c x (key_of env x) t summary w ≡ (answer x t s, w))
      by_status_of done summary n = (summary, refl)
      by_status_of pending summary n = (summary, refl)
      by_status_of failed summary n = absurd (n refl)

-- The key of the effect that a call asks for stays the same.
same_key : (env : Env) (x y : Prepared) → SameEffect x y → key_of env y ≡ key_of env x
unfolding effect_key
same_key env x y s = rw (s.action, s.target, s.params) refl

module _ (env : Env) (r : SkillRunner) (q : QuietRegistry r.registry) where
  abbrev tool_of :
      (c : Invocation) (w : Work) (x : Prepared) → (prepare r c w).0 ≡ ok x → QuietTool x.tool
  tool_of c w x p =
      Found-QuietTool r.registry c.skill c.tool _ x.tool q (prepare-Checked r c w x p).found

  -- The checks leave the task and the ledger.
  prepared-Still :
      (c : Invocation) (w : Work)
      → Still w.ctx.task.id w.engine.db.effects w.engine.db.next_effect (prepare r c w).1
  prepared-Still c w =
      ((prepare-Quiet r c q).keeps w.ctx.task.id w.engine.db.effects w.engine.db.next_effect).at w
        (unchanged w)

  invoke_prepared :
      (c : Invocation) (w : Work) (x : Prepared)
      → (prepare r c w).0 ≡ ok x
      → invoke env r c w ≡ pass_ledger env r c x (prepare r c w).1
  unfolding invoke
  invoke_prepared c w x p = bind_ok (prepare r c) (pass_ledger env r c) x w p

  -- A later call for an effect that is closed.
  pub later_call :
      (i : ℕ) (x : Prepared) (row : SideEffect) (c : Invocation) (y : Prepared) (w : Work)
      → Stands i (key_of env x) row w
      → IsClosed row
      → (prepare r c w).0 ≡ ok y
      → IsRecorded r y
      → SameEffect x y
      → (summary : String) × (invoke env r c w ≡ (answer y row.status summary, (prepare r c w).1))
  later_call i x row c y w s n p l e =
      let v = prepared-Still c w in
      let stands : Stands (prepare r c w).1.ctx.task.id (key_of env y) row (prepare r c w).1 =
        record {
          task = refl;
          ordered = rw (v.effects.rows, v.effects.next) s.ordered;
          at_key = rw (v.task, v.effects.rows, s.task, same_key env x y e) s.at_key;
        } in
      let (summary, a) =
        pass_ledger_closed env r c y (tool_of c w y p) row (prepare r c w).1 l n stands in
      (summary, invoke_prepared c w y p ∙ a)

  pub invoke-Leaves :
      (c : Invocation) (x : Prepared) (w : Work)
      → HasLedger w.engine.db
      → (prepare r c w).0 ≡ ok x
      → IsRecorded r x
      → ((e : Exc) → (invoke env r c w).0 ≡ err e → Passes env c x (prepare r c w).1)
      → Leaves w.ctx.task.id (key_of env x) (invoke env r c w).0 (invoke env r c w).1
  invoke-Leaves c x w h p l g =
      let v = prepared-Still c w in
      let whole =
        invoke_prepared c w x p
        ∙ pass_ledger-by_entry env r c x (tool_of c w x p) (prepare r c w).1 l in
      let o : Result ToolResult × Work =
        by_entry env r c x (key_of env x)
          (entry_of (
            by_key (prepare r c w).1.ctx.task.id (key_of env x)
              (prepare r c w).1.engine.db.effects))
          (prepare r c w).1 in
      let left =
        by_entry-Leaves env r c x (tool_of c w x p) (key_of env x) _ (prepare r c w).1
          (rw (v.effects.rows, v.effects.next) h) refl
          (λ e k. g e (ap (λ (o : Result ToolResult × Work). o.0) whole ∙ k)) in
      subst (λ (o : Result ToolResult × Work). Leaves w.ctx.task.id (key_of env x) o.0 o.1)
        (sym whole) (subst (λ j. Leaves j (key_of env x) o.0 o.1) v.task left)
