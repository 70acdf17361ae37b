-- ===== src/Queue/Engine/Require/Permits.antt =====
-- What `require` of core/queue/engine.py promises.
use mathlib.Core.Path.{subst}
use nova_ai_agent.Prelude.{
  ◌≡◌, ◌≢◌, ◌⊎◌, refl, sym, String, Bool, true, false, Option, none, some, if◌then◌else◌, inl, inr,
}
use nova_ai_agent.Exec.{permission_denied, Result, ok, err}
use nova_ai_agent.Db.{green, yellow}
use nova_ai_agent.Permissions.Env.{Env}
use nova_ai_agent.Permissions.Audit.{record_audit}
use nova_ai_agent.Permissions.Engine.{
  Decision, allow, allow_logged, needs_check, needs_approval, deny, Evaluation, level_of,
  is_lockdown, evaluate,
}
use nova_ai_agent.Permissions.Engine.Gate.{
  evaluate_allows, evaluate_lockdown, evaluate_checks, unlocked_approval,
}
use nova_ai_agent.Queue.Engine.Work.{Work}
use nova_ai_agent.Queue.Engine.Require.{SafetyCheck, Ask, decided, require}
use nova_ai_agent.Queue.Engine.Require.Gate.{
  Ordered, Permitted, by_green, by_blue, by_check, by_approval, by_approval_after_check, Settled,
  check_safety-Settled, need_approval-Used,
}

module _ (env : Env) (a : Ask) where
  decided-Permitted :
      (w : Work) (d : Decision)
      → (evaluate env a.action w.engine.db).decision ≡ d
      → Ordered w
      → ((check : SafetyCheck) → a.safety_check ≡ some check → Ordered (check w).1)
      → (decided env a w.ctx.task.id (evaluate env a.action w.engine.db) d w).0 ≡ ok tt
      → Permitted env a w (decided env a w.ctx.task.id (evaluate env a.action w.engine.db) d w).1
  unfolding decided
  decided-Permitted w allow e o keeps k = by_green ((evaluate_allows env a.action w.engine.db).0 e)
  decided-Permitted w allow_logged e o keeps k =
      let (b, l) = (evaluate_allows env a.action w.engine.db).1 e in by_blue b l
  decided-Permitted w deny e o keeps k = cc
  decided-Permitted w needs_approval e o keeps k =
      by_approval (unlocked_approval env a.action w.engine.db e)
        (need_approval-Used env a w.ctx.task.id _ a.summary w o k)
  decided-Permitted w needs_check e o keeps k =
      let (y, l) = evaluate_checks env a.action w.engine.db e in
      by_settled a.safety_check refl y l
        (check_safety-Settled env a w.ctx.task.id _ a.safety_check w keeps o k)
    where
      by_settled :
          {w' : Work} (c : Option SafetyCheck)
          → a.safety_check ≡ c
          → level_of env a.action ≡ yellow
          → is_lockdown w.engine.db ≡ false
          → Settled env a w.ctx.task.id c w w'
          → Permitted env a w w'
      by_settled none e y l u = by_approval l u
      by_settled (some check) e y l (inl (why, r)) = by_check y l check e why r
      by_settled (some check) e y l (inr (why, r, u)) =
          by_approval_after_check l (record { check = check; given = e; why = why; answer = r }) u

  -- An action proceeds only if it is GREEN, or there is no lockdown and it is BLUE, or it is YELLOW
  -- and its safety check passed, or an approval of this task for exactly this action, target and
  -- details was used up: it stood approved and in time when the action was asked for, or right after the
  -- safety check that the action failed. Asked is that the approvals table is in the order of its ids,
  -- and that the safety check keeps it so.
  pub require-Permitted :
      (w : Work)
      → Ordered w
      → ((check : SafetyCheck) → a.safety_check ≡ some check → Ordered (check w).1)
      → (require env a w).0 ≡ ok tt
      → Permitted env a w (require env a w).1
  unfolding require
  require-Permitted w o keeps k = by_gate w.ctx.gated k
    where
      d : Result (Unit {0}) × Work
      d =
          decided env a w.ctx.task.id (evaluate env a.action w.engine.db)
            (evaluate env a.action w.engine.db).decision w

      off : Result (Unit {0}) × Work
      off = (err (permission_denied a.action "permission engine unavailable"), w)

      by_gate :
          (g : Bool) → (if g then d else off).0 ≡ ok tt → Permitted env a w (if g then d else off).1
      by_gate true k = decided-Permitted w _ refl o keeps k
      by_gate false k = cc

  denied_by :
      (ev : Evaluation) (w : Work)
      → ((decided env a w.ctx.task.id ev deny w).0 ≡ err (permission_denied a.action ev.reason))
        × ((decided env a w.ctx.task.id ev deny w).1.engine.db.approvals ≡ w.engine.db.approvals)
        × ((decided env a w.ctx.task.id ev deny w).1.engine.db.tasks ≡ w.engine.db.tasks)
  unfolding decided record_audit
  denied_by ev w = (refl, refl, refl)

  -- Nothing but the audit log changed, and the action was refused.
  abbrev pub Refused : Work → Result (Unit {0}) × Work → Type 0
  Refused w x =
      (reason : String) × (x.0 ≡ err (permission_denied a.action reason))
      × (x.1.engine.db.approvals ≡ w.engine.db.approvals)
      × (x.1.engine.db.tasks ≡ w.engine.db.tasks)

  -- During a lockdown an action that is not GREEN is refused, whatever was approved before, and a
  -- context without the permission engine refuses every action. Tasks and approvals stay.
  pub require_refuses :
      (w : Work)
      → ((w.ctx.gated ≡ false)
          ⊎ ((is_lockdown w.engine.db ≡ true) × (level_of env a.action ≢ green)))
      → Refused w (require env a w)
  unfolding require
  require_refuses w h = by_gate w.ctx.gated refl h
    where
      by_gate :
          (g : Bool)
          → w.ctx.gated ≡ g
          → ((w.ctx.gated ≡ false)
              ⊎ ((is_lockdown w.engine.db ≡ true) × (level_of env a.action ≢ green)))
          → Refused w (
              if g
              then decided env a w.ctx.task.id
                  (evaluate env a.action w.engine.db)
                  (evaluate env a.action w.engine.db).decision
                  w
              else (err (permission_denied a.action "permission engine unavailable"), w))
      by_gate false e h = (_, refl, refl, refl)
      by_gate true e (inl g) = cc
      by_gate true e (inr (l, n)) =
          subst
            (λ d. Refused w (decided env a w.ctx.task.id (evaluate env a.action w.engine.db) d w))
            (sym ((evaluate_lockdown env a.action w.engine.db).1 l n))
            (let (r, x, y) = denied_by (evaluate env a.action w.engine.db) w in (_, r, x, y))
