-- ===== src/Tests/Sample.antt =====
-- The concrete data of the tests.
use nova_ai_agent.Prelude.{ℕ, String, Bool, true, false, none, some, List, [], ◌∷◌}
use nova_ai_agent.Json.{end}
use nova_ai_agent.Exec.{error, pure, raise}
use nova_ai_agent.Queue.States.{TaskState, received, running, retrying, waiting_approval}
use nova_ai_agent.Db.{
  StepStatus, pending, current, TaskStep, Task, Level, green, blue, yellow, red, ApprovalStatus,
  approved, Approval, Db,
}
use nova_ai_agent.Permissions.Env.{Env}
use nova_ai_agent.Queue.Engine.Work.{Verdict, Engine, Work, Executor}
use nova_ai_agent.Queue.Engine.Require.{Ask}

abbrev pub step : ℕ → StepStatus → TaskStep
step n s = record {
  seq = n;
  title = "step";
  status = s;
  checkpoint = none;
  error = none;
  started_at = none;
  finished_at = none;
}

abbrev pub task : ℕ → TaskState → ℕ → List TaskStep → Task
task i s p steps = record {
  id = i;
  title = "title";
  request_text = "text";
  task_type = "demo";
  channel = "telegram";
  chat_id = "7";
  state = s;
  paused_from = none;
  priority = p;
  retry_count = 0;
  cancel_requested = false;
  pause_requested = false;
  result_summary = none;
  error_code = none;
  error_message = none;
  created_at = 1;
  started_at = some 1;
  finished_at = none;
  steps = steps;
}

abbrev pub fresh_task : Task
fresh_task = task 1 received 5 []

abbrev pub running_task : Task
running_task = task 2 running 3 (step 1 current ∷ step 2 pending ∷ [])

abbrev pub waiting_task : Task
waiting_task = task 3 waiting_approval 3 (step 1 pending ∷ [])

abbrev pub retried_task : Task
retried_task = task 4 retrying 9 []

abbrev pub approval : ℕ → ApprovalStatus → String → Approval
approval i s fp = record {
  id = i;
  task_id = some 3;
  action = "git.push_production";
  level = red;
  status = s;
  nonce = "n1";
  target = "main";
  summary = "push";
  fingerprint = fp;
  details = end;
  expires_at = 100;
  decided_at = none;
  decided_by = none;
}

abbrev pub database : List Task → List Approval → List (String × Bool) → Db
database tasks approvals settings = record {
  tasks = tasks;
  next_task = 5;
  settings = settings;
  messages = [];
  approvals = approvals;
  next_approval = 2;
  audit = [];
  effects = [];
  next_effect = 1;
  notices = [];
  woken = false;
  clock = 10;
}

abbrev pub db : Db
db = database (fresh_task ∷ running_task ∷ waiting_task ∷ retried_task ∷ []) [] []

abbrev pub actions : List (String × Level)
actions =
    ("read", green)
    ∷ ("note", blue)
    ∷ ("click", yellow)
    ∷ ("file.delete_important", red)
    ∷ ("file.delete_pathwide", red)
    ∷ ("git.push_production", red)
    ∷ ("message.send_external", red)
    ∷ ("system.shutdown", red)
    ∷ ("system.restart", red)
    ∷ ("account.security_change", red)
    ∷ ("admin.destructive", red)
    ∷ []

-- A configuration, with functions that stand for what is not modelled.
abbrev pub env : Env
env = record {
  actions = actions;
  timeout_seconds = 50;
  max_retries = 3;
  has_notifier = true;
  digest = λ j. "digest";
  redact = λ s. s;
  lower = λ s. s;
  strip = λ s. s;
  describe = λ e. "RuntimeError: failed";
}

abbrev pub with_approval : Db
with_approval = database (fresh_task ∷ waiting_task ∷ []) (approval 1 approved "digest" ∷ []) []

abbrev pub engine : Db → Engine
engine d = record {
  db = d;
  draining = false;
  interrupted_ids = [];
  current_task_id = none;
  current_fast_task_id = none;
}

abbrev pub work : Db → Task → Work
work d t = record {
  ctx = record { task = t; steps = t.steps; current_seq = none; gated = true };
  engine = engine d;
}

abbrev pub accepted : Verdict
accepted = record {
  passed = true;
  detail = "checked";
  status = none;
  proofs = [];
  redo_from = none;
}

abbrev pub refused : Verdict
refused = record accepted { passed = false }

-- Executors that plan two steps, work and verify.
abbrev pub worker : Verdict → Executor
worker v = record { plan = pure ("look" ∷ "act" ∷ []); run = pure "result"; verify = λ _. pure v }

abbrev pub broken : Executor
broken = record { plan = raise (error "no plan"); run = pure "result"; verify = λ _. pure accepted }

abbrev pub push : Ask
push = record {
  action = "git.push_production";
  target = "main";
  summary = "push";
  details = none;
  safety_check = none;
  nonce = "n2";
}
