-- ===== src/Skills/Quiet.antt =====
-- Actions that leave the ledger alone: `require` of core/queue/engine.py is one, and so are the checks
-- of core/skills/runner.py when the functions of the tools are.
use nova_ai_agent.Prelude.{
  ℕ, ◌≡◌, refl, String, Bool, true, false, Option, none, some, List, arith, Bool-cases, inl, inr,
  if_holds,
}
use nova_ai_agent.Exec.{Exc, Result, ok, err, proceed, raise, approval_pending, ◌>>=◌}
use nova_ai_agent.Exec.Keeps.{Keeps, Keeps-bind}
use nova_ai_agent.Json.{Fields}
use nova_ai_agent.Db.{Level, SideEffect, Approval, Db}
use nova_ai_agent.Permissions.Env.{Env}
use nova_ai_agent.Permissions.Audit.{record_audit}
use nova_ai_agent.Permissions.Engine.{
  Decision, allow, allow_logged, needs_check, needs_approval, deny, Evaluation, evaluate,
}
use nova_ai_agent.Permissions.Approvals.{
  request, request_unless, request_new, add_request, by_nonce,
}
use nova_ai_agent.Permissions.Decide.{consume, consume_row}
use nova_ai_agent.Skills.Api.{Tool, ToolEnv, action_for}
use nova_ai_agent.Skills.Prepare.{run_precheck}
use nova_ai_agent.Queue.Engine.Work.{Work, Run, with_db, on_db}
use nova_ai_agent.Queue.Engine.Require.{
  SafetyCheck, Ask, ask_owner, after_consume, use_found, need_approval, after_check, check_safety,
  decided, require,
}

-- The table of side effects as it was, in the database.
pub record SameEffects (es : List SideEffect) (n : ℕ) (db : Db) : Type 0 where
  pub rows : db.effects ≡ es
  pub next : db.next_effect ≡ n

-- The task and the table of side effects as they were.
pub record Still (i : ℕ) (es : List SideEffect) (n : ℕ) (w : Work) : Type 0 where
  pub task : w.ctx.task.id ≡ i
  pub effects : SameEffects es n w.engine.db

pub record Quiet {A : Type 0} (m : Run A) : Type 0 where
  pub keeps : (i : ℕ) (es : List SideEffect) (n : ℕ) → Keeps (Still i es n) m

module _ {A B : Type 0} where
  pub Quiet-bind : (m : Run A) (f : A → Run B) → Quiet m → ((a : A) → Quiet (f a)) → Quiet (m >>= f)
  Quiet-bind m f q r = record {
    keeps = λ i es n. Keeps-bind m f (q.keeps i es n) (λ a. (r a).keeps i es n);
  }

  -- The second part may use that the first has returned.
  pub Quiet-bind_on :
      (m : Run A) (f : A → Run B)
      → Quiet m
      → ((w : Work) (a : A) → (m w).0 ≡ ok a → Quiet (f a))
      → Quiet (m >>= f)
  Quiet-bind_on m f q r = record {
    keeps = λ i es n. record {
      at = λ w h. by_result i es n w (m w).0 (m w).1 refl ((q.keeps i es n).at w h);
    };
  }
    where
      by_result :
          (i : ℕ) (es : List SideEffect) (n : ℕ) (w : Work) (o : Result A) (v : Work)
          → (m w).0 ≡ o
          → Still i es n v
          → Still i es n (proceed o f v).1
      by_result i es n w (ok a) v e h = ((r w a e).keeps i es n).at v h
      by_result i es n w (err x) v e h = h

module _ {A : Type 0} where
  pub Quiet-pure : (a : A) → Quiet {A = A} (λ w. (ok a, w))
  Quiet-pure a = record { keeps = λ i es n. record { at = λ w h. h } }

  pub Quiet-raise : (e : Exc) → Quiet {A = A} (raise e)
  Quiet-raise e = record { keeps = λ i es n. record { at = λ w h. h } }

request_unless-SameEffects :
    (env : Env) (es : List SideEffect) (n i : ℕ) (chat_id : String) (o : Option Approval)
    (a : Approval) (db : Db)
    → SameEffects es n db
    → SameEffects es n (request_unless env i chat_id o a db).1
unfolding request_unless add_request record_audit
request_unless-SameEffects env es n i chat_id (some e) a db h = h
request_unless-SameEffects env es n i chat_id none a db h =
    by_nonces (by_nonce a.nonce db.approvals)
  where
    by_nonces : (o : Option Approval) → SameEffects es n (request_new env i chat_id o a db).1
    by_nonces (some taken) = h
    by_nonces none = elim (Bool-cases env.has_notifier) [
      | inl c ↦ rw c (record { rows = h.rows; next = h.next })
      | inr c ↦ rw c (record { rows = h.rows; next = h.next })
    ]

consume_row-SameEffects :
    (es : List SideEffect) (n : ℕ) (o : Option Approval) (db : Db)
    → SameEffects es n db
    → SameEffects es n (consume_row o db).1
unfolding consume_row
consume_row-SameEffects es n none db h = h
consume_row-SameEffects es n (some a) db h = ground (arith, h.rows, h.next)

module _ (env : Env) (a : Ask) (i : ℕ) (es : List SideEffect) (n : ℕ) where
  audited :
      (actor action status : String) (target : Option String) (tid : Option ℕ) (w : Work)
      → Still i es n w
      → Still i es n (with_db (record_audit env actor action status target tid w.engine.db) w)
  unfolding record_audit
  audited actor action status target tid w h = record {
    task = h.task;
    effects = record { rows = h.effects.rows; next = h.effects.next };
  }

  module _ (tid : ℕ) where
    ask_owner-Still :
        (level : Level) (summary : String)
        → Keeps (Still i es n) (ask_owner env a tid level summary)
    unfolding ask_owner on_db request
    ask_owner-Still level summary = record {
      at = λ w h.
          (Keeps-bind {P = Still i es n}
              (on_db (
                request env tid w.ctx.task.chat_id level a.action a.target summary a.nonce
                  a.details))
              (λ req. raise {A = Unit} (approval_pending req.id))
              (record {
                at = λ v k. record {
                  task = k.task;
                  effects = request_unless-SameEffects env es n tid _ _ _ v.engine.db k.effects;
                };
              })
              (λ req. record { at = λ v k. k })).at
            w h;
    }

    after_consume-Still :
        (level : Level) (summary : String) (b : Bool)
        → Keeps (Still i es n) (after_consume env a tid level summary b)
    unfolding after_consume
    after_consume-Still level summary true = record { at = λ w h. audited _ _ _ _ _ w h }
    after_consume-Still level summary false = record {
      at = λ w h. (ask_owner-Still level summary).at w h;
    }

    use_found-Still :
        (level : Level) (summary : String) (o : Option Approval)
        → Keeps (Still i es n) (use_found env a tid level summary o)
    unfolding use_found consume
    use_found-Still level summary none = record {
      at = λ w h. (ask_owner-Still level summary).at w h;
    }
    use_found-Still level summary (some found) = record {
      at = λ w h.
          (after_consume-Still level summary _).at (with_db (consume found.id w.engine.db).1 w)
            (record {
              task = h.task;
              effects = consume_row-SameEffects es n _ w.engine.db h.effects;
            });
    }

    need_approval-Still :
        (level : Level) (summary : String)
        → Keeps (Still i es n) (need_approval env a tid level summary)
    unfolding need_approval
    need_approval-Still level summary = record {
      at = λ w h. (use_found-Still level summary _).at w h;
    }

    after_check-Still :
        (level : Level) (r : Bool × String) → Keeps (Still i es n) (after_check env a tid level r)
    unfolding after_check
    after_check-Still level (true, why) = record { at = λ w h. audited _ _ _ _ _ w h }
    after_check-Still level (false, why) = record {
      at = λ w h. (need_approval-Still level _).at _ (audited _ _ _ _ _ w h);
    }

    check_safety-Still :
        (level : Level) (o : Option SafetyCheck)
        → ((check : SafetyCheck) → o ≡ some check → Quiet check)
        → Keeps (Still i es n) (check_safety env a tid level o)
    unfolding check_safety
    check_safety-Still level none q = record { at = λ w h. (need_approval-Still level _).at w h }
    check_safety-Still level (some check) q =
        Keeps-bind check (after_check env a tid level) ((q check refl).keeps i es n)
          (after_check-Still level)

    decided-Still :
        (ev : Evaluation) (d : Decision)
        → ((check : SafetyCheck) → a.safety_check ≡ some check → Quiet check)
        → Keeps (Still i es n) (decided env a tid ev d)
    unfolding decided
    decided-Still ev deny q = record { at = λ w h. audited _ _ _ _ _ w h }
    decided-Still ev allow q = record { at = λ w h. h }
    decided-Still ev allow_logged q = record { at = λ w h. h }
    decided-Still ev needs_check q = record {
      at = λ w h. (check_safety-Still ev.level a.safety_check q).at w h;
    }
    decided-Still ev needs_approval q = record {
      at = λ w h. (need_approval-Still ev.level a.summary).at w h;
    }

  require-Still :
      ((check : SafetyCheck) → a.safety_check ≡ some check → Quiet check)
      → Keeps (Still i es n) (require env a)
  unfolding require
  require-Still q = record {
    at = λ w h.
        if_holds (λ (x : Result (Unit {0}) × Work). Still i es n x.1) w.ctx.gated _ _
          ((decided-Still w.ctx.task.id (evaluate env a.action w.engine.db)
              (evaluate env a.action w.engine.db).decision q).at
            w h)
          h;
  }

-- The gate leaves the ledger alone when the safety check does.
pub require-Quiet :
    (env : Env) (a : Ask)
    → ((check : SafetyCheck) → a.safety_check ≡ some check → Quiet check)
    → Quiet (require env a)
require-Quiet env a q = record { keeps = λ i es n. require-Still env a i es n q }

-- The functions of a tool leave the ledger alone: it belongs to the runner.
pub record QuietTool (t : Tool) : Type 0 where
  pub run : (p : Fields) (env : ToolEnv) → Quiet (t.run p env)
  pub action : (p : Fields) (env : ToolEnv) → Quiet (action_for t p env)
  pub precheck : (p : Fields) (env : ToolEnv) → Quiet (run_precheck t.precheck p env)
  pub safety_check :
      (f : Fields → ToolEnv → Run (Bool × String))
      → t.safety_check ≡ some f
      → (p : Fields) (env : ToolEnv) → Quiet (f p env)
