-- ===== src/Skills/Runner/Calls.antt =====
-- Any sequence of calls of core/skills/runner.py, and the effects that it keeps.
use nova_ai_agent.Prelude.{
  ℕ, ◌≡◌, ◌≢◌, refl, String, false, ◌&&◌, Option, none, some, List, [], ◌∷◌, arith, Bool-cases, inl,
  inr, eq_iff,
}
use nova_ai_agent.Exec.{Result, ok, err, proceed}
use nova_ai_agent.Exec.Keeps.{Keeps, Keeps-bind}
use nova_ai_agent.Db.{EffectStatus, pending, done, failed, SideEffect}
use nova_ai_agent.Permissions.Env.{Env}
use nova_ai_agent.Queue.Engine.Work.{Work}
use nova_ai_agent.Skills.Ledger.{by_key, is_side_effect, entry_of, lookup_effect}
use nova_ai_agent.Skills.Ledger.Writes.{same}
use nova_ai_agent.Skills.Prepare.{SkillRunner, Invocation, Prepared, prepare}
use nova_ai_agent.Skills.Prepare.Checks.{QuietRegistry, Found-QuietTool, prepare-Quiet}
use nova_ai_agent.Skills.Prepare.Checked.{prepare-Checked}
use nova_ai_agent.Skills.Quiet.{QuietTool}
use nova_ai_agent.Skills.Runner.{
  run_tool, perform, by_status, by_entry, key_of, pass_ledger, invoke,
}
use nova_ai_agent.Skills.Runner.Effects.{
  Stands, Quiet-Stands, gate-Quiet, run_plain-Quiet, run_tool-Stands,
}

-- An effect that is not to be run: it is DONE, or it was started and its outcome is not known.
abbrev pub IsClosed : SideEffect → Type 0
IsClosed row = row.status ≢ failed

module _ (env : Env) (r : SkillRunner) (i : ℕ) (k : String) (row : SideEffect)
    (closed : IsClosed row) where
  module _ (c : Invocation) (x : Prepared) (q : QuietTool x.tool) where
    run_tool-keeps :
        (l : String) (w : Work)
        → same w.ctx.task.id l i k ≡ false
        → Stands i k row w
        → Stands i k row (run_tool env r c x (some l) w).1
    run_tool-keeps l w n s = run_tool-Stands env r c x l w q s.ordered i k row n s

    perform-keeps :
        (l : String) (w : Work)
        → same w.ctx.task.id l i k ≡ false
        → Stands i k row w
        → Stands i k row (perform env r c x (some l) w).1
    unfolding perform
    perform-keeps l w n s = by_result _ ((Quiet-Stands i k row _ (gate-Quiet env c x q)).at w s)
      where
        by_result :
            (o : Result (Unit {0})) {v : Work}
            → Stands i k row v
            → Stands i k row (proceed o (λ u. run_tool env r c x (some l)) v).1
        by_result (ok u) {v} h = run_tool-keeps l v (rw (h.task) (rw s.task at n)) h
        by_result (err e) h = h

    perform_plain-Keeps : Keeps (Stands i k row) (perform env r c x none)
    unfolding perform
    perform_plain-Keeps =
        Keeps-bind _ _ (Quiet-Stands i k row _ (gate-Quiet env c x q))
          (λ u. Quiet-Stands i k row _ (run_plain-Quiet env r c x q))

    -- A closed entry is not at the key of an effect that runs.
    by_entry-keeps :
        (l : String) (o : Option SideEffect) (w : Work)
        → by_key w.ctx.task.id l w.engine.db.effects ≡ o
        → Stands i k row w
        → Stands i k row (by_entry env r c x l (entry_of o) w).1
    unfolding by_entry by_status
    by_entry-keeps l none w e s = perform-keeps l w (ground (arith, s.task, s.at_key, eq_iff l k)) s
    by_entry-keeps l (some found) w e s = by_status_of _ found.status refl
      where
        by_status_of :
            (summary : String) (t : EffectStatus)
            → found.status ≡ t
            → Stands i k row (by_status env r c x l t summary w).1
        by_status_of summary done f = s
        by_status_of summary pending f = s
        by_status_of summary failed f =
            perform-keeps l w (ground (arith, s.task, s.at_key, eq_iff l k, closed)) s

    pass_ledger-Keeps : Keeps (Stands i k row) (pass_ledger env r c x)
    unfolding pass_ledger lookup_effect
    pass_ledger-Keeps = record {
      at = λ w s. elim (Bool-cases (r.has_ledger && is_side_effect x.action)) [
        | inl e ↦ rw e (by_entry-keeps (key_of env x) _ w refl s)
        | inr e ↦ rw e (perform_plain-Keeps.at w s)
      ];
    }

  pub invoke-Keeps :
      (c : Invocation) → QuietRegistry r.registry → Keeps (Stands i k row) (invoke env r c)
  unfolding invoke
  invoke-Keeps c q = record {
    at = λ w s.
        by_result w (prepare r c w).0 refl
          ((Quiet-Stands i k row (prepare r c) (prepare-Quiet r c q)).at w s);
  }
    where
      by_result :
          (w : Work) (o : Result Prepared)
          → (prepare r c w).0 ≡ o
          → {v : Work} → Stands i k row v
          → Stands i k row (proceed o (pass_ledger env r c) v).1
      by_result w (err e) f s = s
      by_result w (ok x) f {v} s =
          (pass_ledger-Keeps c x (
              Found-QuietTool r.registry c.skill c.tool _ x.tool q
                (prepare-Checked r c w x f).found)).at
            v s

-- Calls of the runner, one after another, whatever each one returns or raises.
unfoldable pub invoke_all : Env → SkillRunner → List Invocation → Work → Work
invoke_all env r [] w = w
invoke_all env r (c ∷ cs) w = invoke_all env r cs (invoke env r c w).1

-- When the tools leave the ledger alone, whatever calls are made, an effect that stands in the ledger
-- and did not fail stands there afterwards, unchanged.
pub invoke_all-keeps :
    (env : Env) (r : SkillRunner) (cs : List Invocation) (i : ℕ) (k : String) (row : SideEffect)
    (w : Work)
    → QuietRegistry r.registry
    → IsClosed row
    → Stands i k row w
    → Stands i k row (invoke_all env r cs w)
unfolding invoke_all
invoke_all-keeps env r [] i k row w q n s = s
invoke_all-keeps env r (c ∷ cs) i k row w q n s =
    invoke_all-keeps env r cs i k row (invoke env r c w).1 q n
      ((invoke-Keeps env r i k row n c q).at w s)

-- A later call for the same effect: the same action on the same target with the same parameters.
pub record SameEffect (x y : Prepared) : Type 0 where
  pub action : y.action ≡ x.action
  pub target : y.tool.target y.params ≡ x.tool.target x.params
  pub params : y.params ≡ x.params
