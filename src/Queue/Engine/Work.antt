-- ===== src/Queue/Engine/Work.antt =====
-- core/queue/engine.py: verdicts, the context and the engine as the state of an execution, and the
-- executors, which are what the other parts of the program provide.
use Prim.Native.String.{◌++◌ as append_text}
use nova_ai_agent.Prelude.{
  ℕ, String, Bool, true, false, Option, none, some, List, [], ◌∷◌, str_eq, if◌then◌else◌,
}
use nova_ai_agent.Exec.{Exec, ok}
use nova_ai_agent.Db.{TaskStep, Task, Db}
use nova_ai_agent.Queue.Store.{Action}

pub data VerdictStatus : Type 0 where
  pass limited needs_work blocked inconclusive : VerdictStatus

pub record Verdict : Type 0 where
  pub passed : Bool
  pub detail : String
  pub status : Option VerdictStatus
  pub proofs : List String
  pub redo_from : Option ℕ

unfoldable pub final_of : Option VerdictStatus → Bool → VerdictStatus
final_of (some status) passed = status
final_of none true = pass
final_of none false = needs_work

-- Verdict.final
unfoldable pub final : Verdict → VerdictStatus
unfolding final_of
final v = final_of v.status v.passed

-- VERDICT_ICON and the status' value; the invisible selector behind an icon is left out
abbrev label : VerdictStatus → String
label pass = "✅ PASS"
label limited = "☑ PASS WITH KNOWN LIMITATIONS"
label needs_work = "🔧 NEEDS WORK"
label blocked = "🧩 BLOCKED BY USER/AUTH/EXTERNAL SERVICE"
label inconclusive = "❔ UNVERIFIED — RESULT NOT CONFIRMED"

unfoldable pub join : String → List String → String
join separator [] = ""
join separator (x ∷ []) = x
join separator (x ∷ y ∷ rest) = append_text x (append_text separator (join separator (y ∷ rest)))

abbrev nonempty : List String → List String
nonempty [] = []
nonempty (x ∷ xs) = let rest = nonempty xs in if str_eq x "" then rest else x ∷ rest

abbrev behind : String → String → String
behind head body = if str_eq body "" then head else append_text head (append_text " — " body)

-- Verdict.text
unfoldable pub verdict_text : Verdict → String
unfolding final join
verdict_text v =
    behind (label (final v)) (join " · " (nonempty (v.detail ∷ join " · " v.proofs ∷ [])))

-- TaskContext: the snapshot of the task, its steps and the step that runs. `gated` says that the
-- permission engine and the approvals are there.
pub record Ctx : Type 0 where
  pub task : Task
  pub steps : List TaskStep
  pub current_seq : Option ℕ
  pub gated : Bool

-- TaskEngine, with the database that its store works on.
pub record Engine : Type 0 where
  pub db : Db
  pub draining : Bool
  pub interrupted_ids : List ℕ
  pub current_task_id : Option ℕ
  pub current_fast_task_id : Option ℕ

pub record Work : Type 0 where
  pub ctx : Ctx
  pub engine : Engine

abbrev pub Run : Type 0 → Type 0
Run A = Exec Work A

-- The three methods of the Protocol Executor. They may do anything to the state and raise.
pub record Executor : Type 0 where
  pub plan : Run (List String)
  pub run : Run String
  pub verify : String → Run Verdict

abbrev pub with_db : Db → Work → Work
with_db db w = record w { engine = record w.engine { db = db } }

-- A method of the store, of the approvals or of the notifier.
unfoldable pub on_db : {A : Type 0} → Action A → Run A
on_db m w = let (r, db') = m w.engine.db in (r, with_db db' w)

unfoldable pub on_ctx : (Ctx → Ctx) → Run Unit
on_ctx f w = (ok tt, record w { ctx = f w.ctx })

unfoldable pub on_engine : (Engine → Engine) → Run Unit
on_engine f w = (ok tt, record w { engine = f w.engine })
