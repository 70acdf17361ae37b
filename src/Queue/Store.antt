-- ===== src/Queue/Store.antt =====
-- core/queue/store.py: each method of TaskStore is an action on the database. A transaction that
-- raises leaves the database as it was. Log lines are left out.
pub mod Steps
pub mod Control
pub mod Messages
pub mod Transition
pub mod StateAt
pub mod Invariant
pub mod Picking
pub mod Order
pub mod Requests
pub mod Recovery
use nova_ai_agent.Prelude.{
  ℕ, suc, ◌+◌, ◌-◌, ◌<◌, String, Bool, true, false, not, ◌&&◌, ◌||◌, Option, none, some, List, [],
  ◌∷◌, ◌++◌, map, ltb, leb, ◌==◌, str_eq, if◌then◌else◌, keep, take, cut, lookup, insert,
}
use nova_ai_agent.Json.{Json, obj, Fields, end, field}
use nova_ai_agent.Exec.{
  Exec, Result, ok, err, key_error, attribute_error, invalid_transition, pure, raise, gets, modify,
  proceed, ◌>>=◌, ◌>>◌,
}
use nova_ai_agent.Queue.States.{
  TaskState, received, paused, retrying, cancelled, terminal, runnable, active, can_transition,
  is_received, is_paused, is_running,
}
use nova_ai_agent.Db.{
  StepStatus, pending, current, done, failed, TaskStep, Task, Direction, inbound, Message, Db,
  find_task, put_task, get_task, save_task, find_step, put_step,
}

abbrev pub Action : Type 0 → Type 0
Action A = Exec Db A

abbrev pub queue_paused_key : String
queue_paused_key = "queue.paused"

-- TaskStore.create
unfoldable pub create : (title request_text task_type channel chat_id : String) → ℕ → Action Task
create title request_text task_type channel chat_id priority db =
    let t : Task = record {
      id = db.next_task;
      title = cut 200 title;
      request_text = request_text;
      task_type = task_type;
      channel = channel;
      chat_id = chat_id;
      state = received;
      paused_from = none;
      priority = priority;
      retry_count = 0;
      cancel_requested = false;
      pause_requested = false;
      result_summary = none;
      error_code = none;
      error_message = none;
      created_at = db.clock;
      started_at = none;
      finished_at = none;
      steps = [];
    } in
    (ok t, record db { tasks = db.tasks ++ t ∷ []; next_task = suc db.next_task })

-- TaskStore.list_in, with the set of states as its membership test
unfoldable pub list_in : (TaskState → Bool) → Db → List Task
list_in states db = keep (λ t. states t.state) db.tasks

unfoldable pub str_mem : String → List String → Bool
str_mem s [] = false
str_mem s (x ∷ xs) = str_eq x s || str_mem s xs

-- The WHERE clause of `next_runnable`.
unfoldable pub eligible : List String → Option ℕ → Task → Bool
unfolding runnable str_mem
eligible types none t = runnable t.state && str_mem t.task_type types
eligible types (some low) t =
    (runnable t.state && str_mem t.task_type types) && (leb low t.priority && is_received t.state)

-- ORDER BY priority DESC, id
unfoldable pub comes_before : Task → Task → Bool
comes_before a b = ltb b.priority a.priority || (a.priority == b.priority && leb a.id b.id)

-- LIMIT 1
unfoldable pub first_of_two : Task → Option Task → Option Task
unfolding comes_before
first_of_two t none = some t
first_of_two t (some u) = if comes_before t u then some t else some u

unfoldable pub first_by_order : List Task → Option Task
first_by_order [] = none
first_by_order (t ∷ ts) = first_of_two t (first_by_order ts)

-- TaskStore.next_runnable; an empty list of types gives no eligible row
unfoldable pub next_runnable : List String → Option ℕ → Db → Option Task
next_runnable types min_priority db = first_by_order (keep (eligible types min_priority) db.tasks)

-- The keyword arguments of `transition`: a column and its value, or a name that Task lacks.
pub data Field : Type 0 where
  retry_count : ℕ → Field
  result_summary error_code error_message : Option String → Field
  unknown : String → Field

-- The loop over `fields.items()`.
unfoldable pub set_fields : List Field → Task → Result Task
set_fields [] t = ok t
set_fields (retry_count n ∷ fs) t = set_fields fs (record t { retry_count = n })
set_fields (result_summary v ∷ fs) t = set_fields fs (record t { result_summary = v })
set_fields (error_code v ∷ fs) t = set_fields fs (record t { error_code = v })
set_fields (error_message v ∷ fs) t = set_fields fs (record t { error_message = v })
set_fields (unknown k ∷ fs) t = err (attribute_error k)

abbrev or_now : Option ℕ → ℕ → Option ℕ
or_now none now = some now
or_now (some before) now = some before

-- The assignments of `transition` before its keyword arguments.
unfoldable pub moved : TaskState → ℕ → Task → Task
unfolding terminal
moved dst now t = record t {
  state = dst;
  paused_from =
      if is_paused dst then some t.state else if is_paused t.state then none else t.paused_from;
  started_at = if is_running dst then or_now t.started_at now else t.started_at;
  finished_at = if terminal dst then some now else t.finished_at;
  cancel_requested = if terminal dst then false else t.cancel_requested;
  pause_requested = if terminal dst || is_paused dst then false else t.pause_requested;
}

unfoldable pub save_fields : Result Task → Action Task
save_fields (ok t) db = (ok t, save_task t db)
save_fields (err e) db = (err e, db)

unfoldable pub transition_row : Option Task → ℕ → TaskState → List Field → Action Task
unfolding save_fields
transition_row none task_id dst fields db = (err (key_error task_id), db)
transition_row (some t) task_id dst fields db =
    if can_transition t.state dst
    then save_fields (set_fields fields (moved dst db.clock t)) db
    else (err (invalid_transition task_id t.state dst), db)

-- TaskStore.transition
unfoldable pub transition : ℕ → TaskState → List Field → Action Task
unfolding transition_row
transition task_id dst fields db = transition_row (get_task db task_id) task_id dst fields db
