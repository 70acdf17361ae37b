-- ===== src/Skills/Runner/Effects.antt =====
-- What a run of a tool by core/skills/runner.py leaves in the ledger.
use mathlib.Core.Path.{subst}
use mathlib.Core.Option.{some-injective}
use nova_ai_agent.Prelude.{
  ℕ, ◌≡◌, refl, sym, ◌∙◌, ap, String, Bool, false, ◌&&◌, Option, none, some, arith, Bool-cases, inl,
  inr,
}
use nova_ai_agent.Json.{Fields}
use nova_ai_agent.Exec.{Exc, Result, ok, err, pure, proceed}
use nova_ai_agent.Exec.Keeps.{Keeps, bind_pure_state}
use nova_ai_agent.Exec.Returns.{bind_ok}
use nova_ai_agent.Db.{pending, SideEffect, Db}
use nova_ai_agent.Permissions.Env.{Env}
use nova_ai_agent.Permissions.Audit.{record_audit}
use nova_ai_agent.Queue.Engine.Work.{Work, Run, with_db}
use nova_ai_agent.Queue.Engine.Require.{SafetyCheck, require}
use nova_ai_agent.Skills.Ledger.{by_key, starts_with_any, begin, finish, finish_row}
use nova_ai_agent.Skills.Ledger.Writes.{
  HasLedger, same, Started, begin-Started, begin-other, status_of, Ended, finish-Ended,
  finish-other,
}
use nova_ai_agent.Skills.Api.{ToolResult, ToolEnv}
use nova_ai_agent.Skills.Prepare.{SkillRunner, Invocation, Prepared}
use nova_ai_agent.Skills.Quiet.{Still, Quiet, QuietTool, Quiet-bind, Quiet-pure, require-Quiet}
use nova_ai_agent.Skills.Runner.{
  audited_prefixes, check_of, ask_of, begin_effect, finish_effect, audit_call, safe_result,
  conclude, run_tool,
}

-- The effect of task `i` with key `k` stands in the ledger as `row`.
pub record Stands (i : ℕ) (k : String) (row : SideEffect) (w : Work) : Type 0 where
  pub task : w.ctx.task.id ≡ i
  pub ordered : HasLedger w.engine.db
  pub at_key : by_key i k w.engine.db.effects ≡ some row

pub unchanged : (w : Work) → Still w.ctx.task.id w.engine.db.effects w.engine.db.next_effect w
unchanged w = record { task = refl; effects = record { rows = refl; next = refl } }

-- What leaves the ledger alone keeps every effect.
pub Quiet-Stands :
    {A : Type 0} (i : ℕ) (k : String) (row : SideEffect) (m : Run A)
    → Quiet m
    → Keeps (Stands i k row) m
Quiet-Stands i k row m q = record {
  at = λ w h.
      let s =
        (q.keeps w.ctx.task.id w.engine.db.effects w.engine.db.next_effect).at w (unchanged w) in
      record {
        task = s.task ∙ h.task;
        ordered = rw (s.effects.rows, s.effects.next) h.ordered;
        at_key = rw s.effects.rows h.at_key;
      };
}

pub gate-Quiet :
    (env : Env) (c : Invocation) (x : Prepared)
    → QuietTool x.tool
    → Quiet (require env (ask_of env c x))
gate-Quiet env c x q = require-Quiet env (ask_of env c x) (by_check x.tool.safety_check refl)
  where
    by_check :
        (o : Option (Fields → ToolEnv → Run (Bool × String)))
        → x.tool.safety_check ≡ o
        → (check : SafetyCheck) → check_of o x.params x.env ≡ some check
        → Quiet check
    by_check none e check k = cc
    by_check (some f) e check k =
        subst Quiet (some-injective (f x.params x.env) check k) (q.safety_check f e x.params x.env)

-- The row that a call leaves at its effect: by its result when it returned, and PENDING when it was
-- cut off.
pub record Leaves (i : ℕ) (k : String) (result : Result ToolResult) (w : Work) : Type 0 where
  pub row : SideEffect
  pub stands : Stands i k row w
  pub returned : (t : ToolResult) → result ≡ ok t → row.status ≡ status_of t.ok
  pub raised : (e : Exc) → result ≡ err e → row.status ≡ pending

module _ (env : Env) (r : SkillRunner) (c : Invocation) (x : Prepared) where
  audit_call-Quiet : (result : ToolResult) → Quiet (audit_call env r c x result)
  unfolding audit_call record_audit
  audit_call-Quiet result = record {
    keeps = λ i es n. record {
      at = λ w h. elim (Bool-cases (r.has_audit && starts_with_any audited_prefixes x.action)) [
        | inl e ↦ rw e (record {
          task = h.task;
          effects = record { rows = h.effects.rows; next = h.effects.next };
        })
        | inr e ↦ rw e h
      ];
    };
  }

  -- After a run without a key the ledger is as it was.
  pub run_plain-Quiet : QuietTool x.tool → Quiet (run_tool env r c x none)
  unfolding run_tool begin_effect conclude finish_effect
  run_plain-Quiet q =
      Quiet-bind (x.tool.run x.params x.env) (conclude env r c x none) (q.run x.params x.env)
        (λ result.
          Quiet-bind (audit_call env r c x (safe_result env result)) _
            (audit_call-Quiet (safe_result env result)) (λ u. Quiet-pure (safe_result env result)))

  audit_call-ok : (result : ToolResult) (w : Work) → (audit_call env r c x result w).0 ≡ ok tt
  unfolding audit_call
  audit_call-ok result w =
      elim (Bool-cases (r.has_audit && starts_with_any audited_prefixes x.action)) [
        | inl e ↦ rw e refl
        | inr e ↦ rw e refl
      ]

  module _ (k : String) (w : Work) (q : QuietTool x.tool) (h : HasLedger w.engine.db) where
    abbrev begun : ℕ × Db
    begun = begin w.ctx.task.id k x.action (x.tool.target x.params) w.engine.db

    abbrev ran : Result ToolResult × Work
    ran = x.tool.run x.params x.env (with_db begun.1 w)

    ran-Still : Still w.ctx.task.id begun.1.effects begun.1.next_effect ran.1
    ran-Still =
        ((q.run x.params x.env).keeps w.ctx.task.id begun.1.effects begun.1.next_effect).at
          (with_db begun.1 w) (unchanged (with_db begun.1 w))

    ran-Started : Started w.ctx.task.id k begun.0 ran.1.engine.db
    ran-Started =
        let s = begin-Started w.ctx.task.id k x.action (x.tool.target x.params) w.engine.db h in
        record {
          row = s.row;
          stands = rw ran-Still.effects.rows s.stands;
          at_id = s.at_id;
          is_pending = s.is_pending;
          no_summary = s.no_summary;
          ordered = rw (ran-Still.effects.rows, ran-Still.effects.next) s.ordered;
        }

    abbrev finished : ToolResult → Db
    finished result = finish begun.0 result.ok (env.redact result.summary) ran.1.engine.db

    concluded : ToolResult → Result ToolResult × Work
    concluded result = conclude env r c x (some begun.0) result ran.1

    concluded-Still :
        (result : ToolResult)
        → Still w.ctx.task.id
            (finished result).effects
            (finished result).next_effect
            (concluded result).1
    unfolding concluded conclude finish_effect finish finish_row
    concluded-Still result =
        subst (Still w.ctx.task.id (finished result).effects (finished result).next_effect)
          (sym (
            bind_pure_state (audit_call env r c x (safe_result env result)) (safe_result env result)
              (with_db (finished result) ran.1)))
          (((audit_call-Quiet (safe_result env result)).keeps w.ctx.task.id _ _).at
            (with_db (finished result) ran.1)
            (record { task = ran-Still.task; effects = record { rows = refl; next = refl } }))

    ended :
        (result : ToolResult)
        → Ended w.ctx.task.id k result.ok (env.redact result.summary) (finished result)
    ended result =
        finish-Ended w.ctx.task.id k begun.0 result.ok (env.redact result.summary) ran.1.engine.db
          ran-Started

    concluded-ok : (result : ToolResult) → (concluded result).0 ≡ ok (safe_result env result)
    unfolding concluded conclude finish_effect
    concluded-ok result =
        ap (λ (p : Result ToolResult × Work). p.0)
          (bind_ok (audit_call env r c x (safe_result env result))
            (λ u. pure (safe_result env result)) tt (with_db (finished result) ran.1)
            (audit_call-ok (safe_result env result) (with_db (finished result) ran.1)))

    -- The tool's result decides what stands at the key.
    pub run_tool-Leaves :
        Leaves w.ctx.task.id k (run_tool env r c x (some k) w).0 (run_tool env r c x (some k) w).1
    unfolding run_tool begin_effect concluded
    run_tool-Leaves = by_result ran.0
      where
        by_result :
            (res : Result ToolResult)
            → Leaves w.ctx.task.id k
                (proceed res (conclude env r c x (some begun.0)) ran.1).0
                (proceed res (conclude env r c x (some begun.0)) ran.1).1
        by_result (err e) = record {
          row = ran-Started.row;
          stands = record {
            task = ran-Still.task;
            ordered = ran-Started.ordered;
            at_key = ran-Started.stands;
          };
          returned = λ t p. cc;
          raised = λ d p. ran-Started.is_pending;
        }
        by_result (ok result) = record {
          row = (ended result).row;
          stands = record {
            task = (concluded-Still result).task;
            ordered =
                rw ((concluded-Still result).effects.rows, (concluded-Still result).effects.next)
                  (ended result).ordered;
            at_key = rw (concluded-Still result).effects.rows (ended result).stands;
          };
          returned = λ t p.
              let same : ok (safe_result env result) ≡ ok t = sym (concluded-ok result) ∙ p in
              ground (arith, (ended result).status, same);
          raised = λ d p.
              let same : ok (safe_result env result) ≡ err d = sym (concluded-ok result) ∙ p in cc;
        }

    -- The other effects stay.
    pub run_tool-Stands :
        (i : ℕ) (l : String) (row : SideEffect)
        → same w.ctx.task.id k i l ≡ false
        → Stands i l row w
        → Stands i l row (run_tool env r c x (some k) w).1
    unfolding run_tool begin_effect concluded
    run_tool-Stands i l row n s = by_result ran.0
      where
        still_there : by_key i l ran.1.engine.db.effects ≡ some row
        still_there = rw ran-Still.effects.rows (
            begin-other w.ctx.task.id k x.action (x.tool.target x.params) w.engine.db h i l n
            ∙ s.at_key)

        by_result :
            (res : Result ToolResult)
            → Stands i l row (proceed res (conclude env r c x (some begun.0)) ran.1).1
        by_result (err e) = record {
          task = ran-Still.task ∙ s.task;
          ordered = ran-Started.ordered;
          at_key = still_there;
        }
        by_result (ok result) = record {
          task = (concluded-Still result).task ∙ s.task;
          ordered =
              rw ((concluded-Still result).effects.rows, (concluded-Still result).effects.next)
                (ended result).ordered;
          at_key = rw (concluded-Still result).effects.rows (
              finish-other w.ctx.task.id k begun.0 result.ok (env.redact result.summary)
                ran.1.engine.db i l ran-Started n
              ∙ still_there);
        }
