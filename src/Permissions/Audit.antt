-- ===== src/Permissions/Audit.antt =====
-- core/permissions/audit.py: the row that AuditTrail.record adds. The details column and the log
-- line are left out.
use nova_ai_agent.Prelude.{ℕ, String, Option, none, some, [], ◌∷◌, ◌++◌, str_eq, if◌then◌else◌}
use nova_ai_agent.Db.{AuditRow, Db}
use nova_ai_agent.Permissions.Env.{Env}

-- redact(target) if target else None
unfoldable pub safe_target : Env → Option String → Option String
safe_target env none = none
safe_target env (some t) = if str_eq t "" then none else some (env.redact t)

-- AuditTrail.record
unfoldable pub record_audit :
    Env → (actor action status : String) (target : Option String) (task_id : Option ℕ) → Db → Db
unfolding safe_target
record_audit env actor action status target task_id db =
    let row : AuditRow = record {
      actor = actor;
      action = action;
      status = status;
      target = safe_target env target;
      task_id = task_id;
    } in
    record db { audit = db.audit ++ row ∷ [] }
