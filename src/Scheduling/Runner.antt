-- ===== src/Scheduling/Runner.antt =====
-- core/scheduler/runner.py: the jobs that a tick starts. Times are seconds. The conversion between
-- UTC and the owner's time zone, and whether a file exists, are parameters; texts are left out. A local
-- time here is what the clock on the wall shows: `next_occurrence` adds a timedelta, which drops the
-- fold, and compares two times of one zone, which ignores it; so `to_utc` reads a time that comes twice
-- as the first of the two.
pub mod Firing
use Prim.Native.String.{◌++◌ as append_text}
use nova_ai_agent.Prelude.{
  ℕ, ◌-◌, String, Bool, true, false, ◌&&◌, not, Option, none, some, List, [], ◌∷◌, ◌++◌, ltb,
  if◌then◌else◌, str_eq, cut,
}
use nova_ai_agent.Exec.{Exec, Result, ok, err, pure, proceed, ◌>>=◌, ◌>>◌}
use nova_ai_agent.Queue.States.{terminal}
use nova_ai_agent.Db.{Task, Db, get_task}
use nova_ai_agent.Queue.Store.{create}
use nova_ai_agent.Scheduling.Times.{Rule, next_occurrence}
use nova_ai_agent.Scheduling.Schedules.{
  Condition, task_finished, file_exists, Schedule, Book, due, conditions, fired, reschedule,
}

pub record Setup : Type 0 where
  pub grace : ℕ
  pub to_local : ℕ → ℕ
  pub to_utc : ℕ → ℕ
  pub exists : String → Bool
  pub has_notifier : Bool
  pub has_wake : Bool

abbrev finished : Option Task → Bool
finished none = false
finished (some t) = terminal t.state

-- Scheduler._condition_met: whether it gives a reason
unfoldable pub condition_met : Setup → Option Condition → Book → Bool
unfolding terminal
condition_met s none b = false
condition_met s (some (task_finished i)) b = finished (get_task b.db i)
condition_met s (some (file_exists path)) b = s.exists path

abbrev pub to_utc_time : Setup → Option ℕ → Option ℕ
to_utc_time s none = none
to_utc_time s (some t) = some (s.to_utc t)

-- Scheduler._next
unfoldable pub next_run : Setup → Schedule → ℕ → Option ℕ
next_run s job now =
    if str_eq job.kind "recurring"
    then to_utc_time s (next_occurrence job.rule (s.to_local now))
    else none

-- Scheduler._tell
unfoldable pub tell : Setup → Schedule → Book → Book
tell s job b = if s.has_notifier then record b { told = b.told ++ job.chat_id ∷ [] } else b

abbrev reschedule_or_end : ℕ → Option ℕ → Book → Book
reschedule_or_end sid none b = fired sid none none b
reschedule_or_end sid (some t) b = reschedule sid (some t) b

-- Scheduler._missed
unfoldable pub missed : Setup → Schedule → ℕ → Book → Book
unfolding next_run tell
missed s job now b = tell s job (reschedule_or_end job.id (next_run s job now) b)

abbrev woken : Setup → Book → Book
woken s b = if s.has_wake then record b { db = record b.db { woken = true } } else b

unfoldable pub started : Setup → Schedule → Result Task × Db → Book → Result (Option ℕ) × Book
unfolding tell
started s job (ok t, db') b = (ok (some t.id), woken s (tell s job (record b { db = db' })))
started s job (err e, db') b = (err e, record b { db = db' })

-- The reminder, or the task that a job starts.
unfoldable pub start : Setup → Schedule → Exec Book (Option ℕ)
unfolding started
start s job b =
    if str_eq job.action "remind"
    then (ok none, tell s job b)
    else started s job
        (create (cut 200 (append_text "⏰ " job.what)) job.what "user_request" job.channel
          job.chat_id 0 b.db)
        b

unfoldable pub record_fire : ℕ → Option ℕ → Option ℕ → Exec Book Unit
record_fire sid nxt task_id b = (ok tt, fired sid nxt task_id b)

-- Scheduler._fire
unfoldable pub fire : Setup → Schedule → ℕ → Exec Book Unit
unfolding start next_run record_fire
fire s job now = start s job >>= record_fire job.id (next_run s job now)

abbrev lateness : ℕ → Option ℕ → ℕ
lateness now none = 0
lateness now (some t) = now - t

unfoldable pub run_due : Setup → ℕ → List Schedule → Exec Book (List ℕ)
unfolding fire missed
run_due s now [] = pure []
run_due s now (job ∷ jobs) =
    let rest = run_due s now jobs in
    if ltb s.grace (lateness now job.next_run_at)
    then (λ b. rest (missed s job now b))
    else (fire s job now >>= λ _. rest >>= λ ids. pure (job.id ∷ ids))

unfoldable pub run_conditions : Setup → ℕ → List Schedule → Exec Book (List ℕ)
unfolding fire condition_met
run_conditions s now [] b = (ok [], b)
run_conditions s now (job ∷ jobs) b =
    let rest = run_conditions s now jobs in
    if condition_met s job.condition b
    then (fire s job now >>= λ _. rest >>= λ ids. pure (job.id ∷ ids)) b
    else rest b

-- Scheduler.tick: the ids of the jobs that were started
unfoldable pub tick : Setup → ℕ → Exec Book (List ℕ)
unfolding run_due run_conditions
tick s now b =
    (do
      first ← run_due s now (due now b)
      then_jobs ← (λ b. (ok (conditions b), b))
      second ← run_conditions s now then_jobs
      pure (first ++ second))
      b
