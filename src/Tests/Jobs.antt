-- ===== src/Tests/Jobs.antt =====
-- The theorems on schedules, at concrete inputs.
use mathlib.Core.Option.{some-injective}
use mathlib.Core.Path.{subst}
use nova_ai_agent.Prelude.{
  ℕ, ◌+◌, ◌<◌, ◌≤◌, ◌≡◌, ◌⊎◌, inr, refl, true, false, none, some, [], ◌∷◌, arith,
}
use nova_ai_agent.Exec.{ok}
use nova_ai_agent.Scheduling.Times.{Rule, next_occurrence}
use nova_ai_agent.Scheduling.Times.Next.{IsDaily, Falls, next_occurrence-first}
use nova_ai_agent.Scheduling.Schedules.{Schedule, Book, find_schedule}
use nova_ai_agent.Scheduling.Runner.{Setup, fire}
use nova_ai_agent.Scheduling.Runner.Firing.{Over, Again, Recurs, fire-Again}
use nova_ai_agent.Tests.Sample.{db}

-- Tuesdays at nine.
abbrev tuesdays : Rule
tuesdays = record { every_minutes = none; hour = 9; minute = 0; weekly = true; days = 1 ∷ [] }

tuesdays-IsDaily : IsDaily tuesdays
tuesdays-IsDaily = record {
  at_time = refl;
  hours = omega arith;
  minutes = omega arith;
  week = (omega arith, tt);
}

next_occurrence-first_example :
    (t : ℕ) × (next_occurrence (some tuesdays) 100000 ≡ some t)
    × (100000 < t)
    × Falls tuesdays t
    × ((u : ℕ) → 100000 < u → Falls tuesdays u → t ≤ u)
next_occurrence-first_example = next_occurrence-first tuesdays tuesdays-IsDaily 100000

abbrev job : Schedule
job = record {
  id = 1;
  kind = "recurring";
  action = "task";
  what = "report";
  rule = some tuesdays;
  condition = none;
  next_run_at = some 100000;
  enabled = true;
  channel = "telegram";
  chat_id = "7";
  source = none;
  run_count = 4;
  last_run_at = none;
  last_task_id = none;
}

abbrev book : Book
book = record { schedules = job ∷ []; next_schedule = 2; db = db; told = [] }

abbrev setup : Setup
setup = record {
  grace = 43200;
  to_local = λ t. t;
  to_utc = λ t. t;
  exists = λ path. false;
  has_notifier = true;
  has_wake = true;
}

-- The rule of the job is daily.
job_rule : (r : Rule) → job.rule ≡ some r → Recurs r
job_rule r e = subst Recurs (some-injective tuesdays r e) (inr tuesdays-IsDaily)

fire-Again_example :
    (new : Schedule) × ((fire setup job 100000 book).0 ≡ ok tt)
    × (find_schedule 1 (fire setup job 100000 book).1.schedules ≡ some new)
    × (new.run_count ≡ 4 + 1)
    × (Over job new ⊎ Again setup job new 100000)
unfolding find_schedule
fire-Again_example = fire-Again setup job job 100000 book refl job_rule
