-- ===== src/Scheduling/Schedules.antt =====
-- core/scheduler/store.py: the table of schedules. A row's view is the row; updated_at and the text of
-- the request are left out.
use nova_ai_agent.Prelude.{
  ℕ, suc, ◌+◌, String, Bool, true, false, ◌&&◌, not, Option, none, some, List, [], ◌∷◌, ◌++◌, ◌==◌,
  leb, if◌then◌else◌, keep, sort_by, str_eq,
}
use nova_ai_agent.Db.{Db}
use nova_ai_agent.Scheduling.Times.{Rule}

-- The condition of a job, from its JSON object.
pub data Condition : Type 0 where
  task_finished : ℕ → Condition
  file_exists : String → Condition

-- Schedule
pub record Schedule : Type 0 where
  pub id : ℕ
  pub kind : String
  pub action : String
  pub what : String
  pub rule : Option Rule
  pub condition : Option Condition
  pub next_run_at : Option ℕ
  pub enabled : Bool
  pub channel : String
  pub chat_id : String
  pub source : Option String
  pub run_count : ℕ
  pub last_run_at : Option ℕ
  pub last_task_id : Option ℕ

-- The schedules, the database of the tasks, and the chats that were told something.
pub record Book : Type 0 where
  pub schedules : List Schedule
  pub next_schedule : ℕ
  pub db : Db
  pub told : List String

abbrev pub is_some {ℓ} : {A : Type ℓ} → Option A → Bool
is_some none = false
is_some (some x) = true

-- ScheduleStore.add, from a row without its id
unfoldable pub add : Schedule → Book → Schedule × Book
add job b =
    let row = record job {
      id = b.next_schedule;
      enabled = true;
      run_count = 0;
      last_run_at = none;
      last_task_id = none;
    } in
    (row, record b { schedules = b.schedules ++ row ∷ []; next_schedule = suc b.next_schedule })

unfoldable pub find_schedule : ℕ → List Schedule → Option Schedule
find_schedule i [] = none
find_schedule i (j ∷ js) = let rest = find_schedule i js in if j.id == i then some j else rest

-- ScheduleStore.get
abbrev pub get_schedule : ℕ → Book → Option Schedule
get_schedule sid b = find_schedule sid b.schedules

-- The table with a changed row flushed to it.
unfoldable pub change_row : ℕ → (Schedule → Schedule) → List Schedule → List Schedule
change_row i f [] = []
change_row i f (j ∷ js) = let rest = change_row i f js in if j.id == i then f j ∷ js else j ∷ rest

abbrev pub change : ℕ → (Schedule → Schedule) → Book → Book
change i f b = record b { schedules = change_row i f b.schedules }

-- NULL comes first in the order of SQLite.
abbrev pub no_later : Option ℕ → Option ℕ → Bool
no_later none t = true
no_later (some s) none = false
no_later (some s) (some t) = leb s t

-- ScheduleStore.active
unfoldable pub active_jobs : Book → List Schedule
active_jobs b =
    sort_by (λ i j. no_later i.next_run_at j.next_run_at) (keep (λ j. j.enabled) b.schedules)

abbrev has_source : String → Option String → Bool
has_source s none = false
has_source s (some t) = str_eq t s

unfoldable pub find_source : String → List Schedule → Option Schedule
find_source s [] = none
find_source s (j ∷ js) =
    let rest = find_source s js in if has_source s j.source then some j else rest

-- ScheduleStore.by_source
unfoldable pub by_source : String → Book → Option Schedule
unfolding find_source
by_source source b = find_source source b.schedules

abbrev pub has_come : ℕ → Option ℕ → Bool
has_come now none = false
has_come now (some t) = leb t now

abbrev pub is_due : ℕ → Schedule → Bool
is_due now j = j.enabled && has_come now j.next_run_at

-- ScheduleStore.due
unfoldable pub due : ℕ → Book → List Schedule
due now b = sort_by (λ i j. no_later i.next_run_at j.next_run_at) (keep (is_due now) b.schedules)

-- ScheduleStore.conditions
unfoldable pub conditions : Book → List Schedule
conditions b = keep (λ j. j.enabled && str_eq j.kind "condition") b.schedules

abbrev pub fired_row : ℕ → Option ℕ → Option ℕ → Schedule → Schedule
fired_row now next_run_at task_id j = record j {
  run_count = j.run_count + 1;
  last_run_at = some now;
  last_task_id = task_id;
  next_run_at = next_run_at;
  enabled = is_some next_run_at;
}

-- ScheduleStore.fired
unfoldable pub fired : ℕ → Option ℕ → Option ℕ → Book → Book
unfolding change_row
fired sid next_run_at task_id b = change sid (fired_row b.db.clock next_run_at task_id) b

-- ScheduleStore.reschedule
unfoldable pub reschedule : ℕ → Option ℕ → Book → Book
unfolding change_row
reschedule sid next_run_at b = change sid (λ j. record j { next_run_at = next_run_at }) b

-- ScheduleStore.update_static
unfoldable pub update_static : ℕ → String → Option Rule → Option ℕ → Book → Book
unfolding change_row
update_static sid what rule next_run_at b =
    change sid
      (λ j. record j { what = what; rule = rule; next_run_at = next_run_at; enabled = true }) b

abbrev off : Option Schedule → Bool
off none = true
off (some j) = not j.enabled

-- ScheduleStore.cancel
unfoldable pub cancel : ℕ → Book → Bool × Book
unfolding change_row find_schedule
cancel sid b =
    if off (get_schedule sid b)
    then (false, b)
    else (true, change sid (λ j. record j { enabled = false }) b)
