-- ===== src/Db.antt =====
-- core/db/models.py: the rows that the modelled code reads and writes, and the database.
-- A table stands in the order of its ids. The steps of a task stand in its row, in the order of
-- `seq` (the relationship Task.steps). A snapshot of a row (TaskView, ApprovalView) is the row.
-- Times are natural numbers read from `clock`; the column updated_at is left out. Beside the tables
-- stand what the notifier was told to send and whether the dispatcher has been woken.
pub mod Rows
use nova_ai_agent.Prelude.{
  ℕ, String, Bool, true, false, Option, none, some, List, [], ◌∷◌, ◌==◌, if◌then◌else◌,
}
use nova_ai_agent.Json.{Fields}
use nova_ai_agent.Queue.States.{TaskState}

pub data StepStatus : Type 0 where
  pending current done failed : StepStatus

pub record TaskStep : Type 0 where
  pub seq : ℕ
  pub title : String
  pub status : StepStatus
  pub checkpoint : Option Fields
  pub error : Option String
  pub started_at : Option ℕ
  pub finished_at : Option ℕ

pub record Task : Type 0 where
  pub id : ℕ
  pub title : String
  pub request_text : String
  pub task_type : String
  pub channel : String
  pub chat_id : String
  pub state : TaskState
  pub paused_from : Option TaskState
  pub priority : ℕ
  pub retry_count : ℕ
  pub cancel_requested : Bool
  pub pause_requested : Bool
  pub result_summary : Option String
  pub error_code : Option String
  pub error_message : Option String
  pub created_at : ℕ
  pub started_at : Option ℕ
  pub finished_at : Option ℕ
  pub steps : List TaskStep

pub data Direction : Type 0 where
  inbound outbound : Direction

pub record Message : Type 0 where
  pub channel : String
  pub chat_id : String
  pub direction : Direction
  pub text : String
  pub external_id : Option String
  pub task_id : Option ℕ

-- core/config/schema.py
pub data Level : Type 0 where
  green blue yellow red : Level

pub data ApprovalStatus : Type 0 where
  pending approved rejected expired used : ApprovalStatus

pub record Approval : Type 0 where
  pub id : ℕ
  pub task_id : Option ℕ
  pub action : String
  pub level : Level
  pub status : ApprovalStatus
  pub nonce : String
  pub target : String
  pub summary : String
  pub fingerprint : String
  pub details : Fields
  pub expires_at : ℕ
  pub decided_at : Option ℕ
  pub decided_by : Option String

pub record AuditRow : Type 0 where
  pub actor : String
  pub action : String
  pub status : String
  pub target : Option String
  pub task_id : Option ℕ

pub data EffectStatus : Type 0 where
  pending done failed : EffectStatus

pub record SideEffect : Type 0 where
  pub id : ℕ
  pub task_id : ℕ
  pub key : String
  pub action : String
  pub target : String
  pub status : EffectStatus
  pub summary : Option String
  pub created_at : ℕ
  pub completed_at : Option ℕ

-- A message that the notifier was told to send: its kind and where it goes, without its text.
pub data MessageType : Type 0 where
  info progress live user_input_required approval_required : MessageType
  task_completed task_failed_permanently : MessageType

pub record Notice : Type 0 where
  pub chat_id : String
  pub kind : MessageType
  pub task_id : ℕ

pub record Db : Type 0 where
  pub tasks : List Task
  pub next_task : ℕ
  pub settings : List (String × Bool)
  pub messages : List Message
  pub approvals : List Approval
  pub next_approval : ℕ
  pub audit : List AuditRow
  pub effects : List SideEffect
  pub next_effect : ℕ
  pub notices : List Notice
  pub woken : Bool
  pub clock : ℕ

-- s.get(Task, task_id)
unfoldable pub find_task : ℕ → List Task → Option Task
find_task i [] = none
find_task i (t ∷ ts) = if t.id == i then some t else find_task i ts

-- The table with a changed row flushed to it.
unfoldable pub put_task : Task → List Task → List Task
put_task r [] = []
put_task r (t ∷ ts) = if t.id == r.id then r ∷ ts else t ∷ put_task r ts

abbrev pub get_task : Db → ℕ → Option Task
get_task db i = find_task i db.tasks

abbrev pub save_task : Task → Db → Db
save_task r db = record db { tasks = put_task r db.tasks }

unfoldable pub find_step : ℕ → List TaskStep → Option TaskStep
find_step q [] = none
find_step q (s ∷ ss) = if s.seq == q then some s else find_step q ss

unfoldable pub put_step : TaskStep → List TaskStep → List TaskStep
put_step r [] = []
put_step r (s ∷ ss) = if s.seq == r.seq then r ∷ ss else s ∷ put_step r ss

unfoldable pub find_approval : ℕ → List Approval → Option Approval
find_approval i [] = none
find_approval i (a ∷ as') = if a.id == i then some a else find_approval i as'

unfoldable pub put_approval : Approval → List Approval → List Approval
put_approval r [] = []
put_approval r (a ∷ as') = if a.id == r.id then r ∷ as' else a ∷ put_approval r as'

unfoldable pub find_effect : ℕ → List SideEffect → Option SideEffect
find_effect i [] = none
find_effect i (e ∷ es) = if e.id == i then some e else find_effect i es

unfoldable pub put_effect : SideEffect → List SideEffect → List SideEffect
put_effect r [] = []
put_effect r (e ∷ es) = if e.id == r.id then r ∷ es else e ∷ put_effect r es
