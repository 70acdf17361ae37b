-- ===== src/Permissions/Env.antt =====
-- The configuration that the gate reads, and the code that it calls and that is not modelled:
-- `digest` is sha256 over the canonical JSON text, `redact` masks secrets in a text (core/log) and
-- `lower` and `strip` are those methods of str, and `describe` is f"{type(e).__name__}: {e}" of an
-- exception that no handler names.
use nova_ai_agent.Prelude.{ℕ, String, Bool, List}
use nova_ai_agent.Json.{Json}
use nova_ai_agent.Exec.{Exc}
use nova_ai_agent.Db.{Level}

pub record Env : Type 0 where
  pub actions : List (String × Level)
  pub timeout_seconds : ℕ
  pub max_retries : ℕ
  pub has_notifier : Bool
  pub digest : Json → String
  pub redact : String → String
  pub lower : String → String
  pub strip : String → String
  pub describe : Exc → String
