-- ===== src/Queue/Store/Messages.antt =====
-- core/queue/store.py: recorded messages, and the reads over recent tasks.
pub mod Inbox
use nova_ai_agent.Prelude.{
  ℕ, ◌-◌, String, Bool, true, false, not, ◌&&◌, ◌||◌, Option, none, some, List, [], ◌∷◌, ◌++◌, ltb,
  leb, ◌==◌, str_eq, if◌then◌else◌, keep, take, length,
}
use Prim.Native.String.{◌++◌ as append_text}
use mathlib.Core.List.{reverse}
use nova_ai_agent.Exec.{Exec, Result, ok}
use nova_ai_agent.Db.{Task, Direction, inbound, outbound, Message, Db}
use nova_ai_agent.Queue.Store.{Action}

-- TaskStore.list_recent
unfoldable pub list_recent : ℕ → Db → List Task
list_recent limit db = take limit (reverse db.tasks)

abbrev finished_since : ℕ → Option ℕ → Bool
finished_since since none = false
finished_since since (some at) = leb since at

-- The rows of `recent_turns`, before LIMIT.
unfoldable pub is_recent_turn : String → ℕ → ℕ → Task → Bool
is_recent_turn chat_id before_id since t =
    (str_eq t.chat_id chat_id && ltb t.id before_id) && finished_since since t.finished_at

abbrev apology : Option String → String
apology none = ""
apology (some message) =
    if str_eq message "" then "" else append_text "(could not do it: " (append_text message ")")

unfoldable pub answer_of : Option String → Option String → String
answer_of none error_message = apology error_message
answer_of (some result) error_message = if str_eq result "" then apology error_message else result

unfoldable pub turns : List Task → List (String × String)
unfolding answer_of
turns [] = []
turns (t ∷ ts) =
    let rest = turns ts in
    let answer = answer_of t.result_summary t.error_message in
    if str_eq t.request_text "" || str_eq answer "" then rest else (t.request_text, answer) ∷ rest

-- TaskStore.recent_turns
unfoldable pub recent_turns : String → ℕ → ℕ → ℕ → Db → List (String × String)
unfolding is_recent_turn turns
recent_turns chat_id before_id within_seconds limit db =
    let rows = keep (is_recent_turn chat_id before_id (db.clock - within_seconds)) db.tasks in
    turns (reverse (take limit (reverse rows)))

-- TaskStore.record_message
unfoldable pub record_message : Message → Db → Db
record_message m db = record db { messages = db.messages ++ m ∷ [] }

abbrev pub same_external : Option String → String → Bool
same_external none external_id = false
same_external (some e) external_id = str_eq e external_id

abbrev pub is_inbound : Direction → Bool
is_inbound inbound = true
is_inbound outbound = false

unfoldable pub is_message : String → String → String → Message → Bool
is_message channel chat_id external_id m =
    (str_eq m.channel channel && str_eq m.chat_id chat_id)
    && same_external m.external_id external_id

-- The WHERE clause of `seen_inbound`.
unfoldable pub is_inbound_message : String → String → String → Message → Bool
is_inbound_message channel chat_id external_id m =
    is_message channel chat_id external_id m && is_inbound m.direction

unfoldable pub any_inbound : String → String → String → List Message → Bool
any_inbound channel chat_id external_id [] = false
any_inbound channel chat_id external_id (m ∷ ms) =
    is_inbound_message channel chat_id external_id m || any_inbound channel chat_id external_id ms

-- TaskStore.seen_inbound
unfoldable pub seen_inbound : String → String → String → Db → Bool
unfolding any_inbound
seen_inbound channel chat_id external_id db = any_inbound channel chat_id external_id db.messages

-- The newest row that matches gets the task; `none` when no row matches.
unfoldable pub link_newest : String → String → String → ℕ → List Message → Option (List Message)
link_newest channel chat_id external_id task_id [] = none
link_newest channel chat_id external_id task_id (m ∷ ms) =
    elim (link_newest channel chat_id external_id task_id ms) [
      | some ms' ↦ some (m ∷ ms')
      | none ↦
          if is_message channel chat_id external_id m
          then some (record m { task_id = some task_id } ∷ ms)
          else none
    ]

-- TaskStore.link_message
unfoldable pub link_message : String → String → String → ℕ → Db → Db
unfolding link_newest
link_message channel chat_id external_id task_id db =
    elim (link_newest channel chat_id external_id task_id db.messages) [
      | some messages ↦ record db { messages = messages }
      | none ↦ db
    ]

-- TaskStore.count_messages
unfoldable pub count_messages : Db → ℕ
count_messages db = length db.messages
