-- ===== src/Skills/Runner/Gated.antt =====
-- What a call of core/skills/runner.py has to pass before its tool runs.
use nova_ai_agent.Prelude.{
  ◌≡◌, ◌≢◌, ◌⊎◌, refl, String, ◌&&◌, Option, none, some, inl, inr, Bool-cases,
}
use nova_ai_agent.Json.{Fields}
use nova_ai_agent.Exec.{Result, ok, err, proceed}
use nova_ai_agent.Db.{EffectStatus, pending, done, failed}
use nova_ai_agent.Permissions.Env.{Env}
use nova_ai_agent.Queue.Engine.Work.{Work, Run}
use nova_ai_agent.Queue.Engine.Require.{require}
use nova_ai_agent.Queue.Engine.Require.Gate.{Permitted}
use nova_ai_agent.Skills.Ledger.{Entry, is_side_effect, effect_key, lookup_effect}
use nova_ai_agent.Skills.Api.{ToolEnv, ToolResult}
use nova_ai_agent.Skills.Prepare.{SkillRunner, Invocation, Prepared, prepare}
use nova_ai_agent.Skills.Prepare.Checked.{Checked}
use nova_ai_agent.Skills.Runner.{
  shown_summary, ask_of, run_tool, perform, already_done, by_status, by_entry, key_of, pass_ledger,
}
use nova_ai_agent.Skills.Runner.Answers.{Passes}

-- The prepared call with another tool function.
abbrev pub running : (Fields → ToolEnv → Run ToolResult) → Prepared → Prepared
running f x = record x { tool = record x.tool { run = f } }

module _ (env : Env) (r : SkillRunner) (c : Invocation) (x : Prepared) where
  module _ (f : Fields → ToolEnv → Run ToolResult) (w : Work)
      (n : (require env (ask_of env c x) w).0 ≢ ok tt) where
    perform_stopped :
        (key : Option String) → perform env r c x key w ≡ perform env r c (running f x) key w
    unfolding perform shown_summary
    perform_stopped key = by_gate (require env (ask_of env c x) w).0 refl _
      where
        by_gate :
            (o : Result (Unit {0}))
            → (require env (ask_of env c x) w).0 ≡ o
            → (v : Work)
            → proceed o (λ u. run_tool env r c x key) v
              ≡ proceed o (λ u. run_tool env r c (running f x) key) v
        by_gate (err e) k v = refl
        by_gate (ok u) k v = absurd (n k)

    by_entry_stopped :
        (key : String) (o : Option Entry)
        → by_entry env r c x key o w ≡ by_entry env r c (running f x) key o w
    unfolding by_entry by_status
    by_entry_stopped key none = perform_stopped (some key)
    by_entry_stopped key (some e) = by_status_of e.status
      where
        by_status_of :
            (t : EffectStatus)
            → by_status env r c x key t e.summary w
              ≡ by_status env r c (running f x) key t e.summary w
        by_status_of done = refl
        by_status_of pending = refl
        by_status_of failed = perform_stopped (some key)

    -- When the gate does not let a call through, its outcome and all that it leaves are the same
    -- whatever the tool would do: the tool does not run.
    pub gate_stops_run : pass_ledger env r c x w ≡ pass_ledger env r c (running f x) w
    unfolding pass_ledger
    gate_stops_run = elim (Bool-cases (r.has_ledger && is_side_effect x.action)) [
      | inl e ↦ rw e (by_entry_stopped (key_of env x) _)
      | inr e ↦ rw e (perform_stopped none)
    ]

  -- The ledger holds this effect of this task as done, and the result repeats the row's summary.
  pub record Replayed (w : Work) (result : ToolResult) : Type 0 where
    pub entry : Entry
    pub in_ledger :
        lookup_effect w.ctx.task.id
          (effect_key env x.action (x.tool.target x.params) x.params)
          w.engine.db
        ≡ some entry
    pub was_done : entry.status ≡ done
    pub answer : result ≡ already_done entry.summary

  -- Why a call returned a result.
  data Reason (w : Work) (result : ToolResult) : Type 0 where
    replayed : Replayed w result → Reason w result
    passed : Passes env c x w → Reason w result

-- Why a call that returned was allowed to: its request passed the checks, and it is a repetition or the
-- gate permitted it.
pub record Allowed (env : Env) (r : SkillRunner) (c : Invocation) (w : Work) (result : ToolResult)
    : Type 0 where
  pub request : Prepared
  pub prepared : (prepare r c w).0 ≡ ok request
  pub checked : Checked r c w request
  pub why :
      Replayed env r c request (prepare r c w).1 result
      ⊎ Permitted env
          (ask_of env c request)
          (prepare r c w).1
          (require env (ask_of env c request) (prepare r c w).1).1
