-- ===== src/Tests/Skilled.antt =====
-- The theorems on skills, at concrete inputs.
use nova_ai_agent.Prelude.{
  ◌≡◌, ◌≢◌, refl, String, true, false, none, some, List, [], ◌∷◌, arith, All,
}
use nova_ai_agent.Json.{text, end, field}
use nova_ai_agent.Exec.{Exc, approval_pending, Result, task_blocked, error, ok, err, pure, raise}
use nova_ai_agent.Db.{green, find_effect, put_effect}
use nova_ai_agent.Permissions.Approvals.{text_in, find, first_usable, request as ask_for, by_nonce}
use nova_ai_agent.Permissions.Env.{Env}
use nova_ai_agent.Permissions.Engine.{evaluate}
use nova_ai_agent.Queue.Engine.Work.{Work, Run, on_db}
use nova_ai_agent.Queue.Engine.Require.{require}
use nova_ai_agent.Skills.Ledger.{effect_key, is_side_effect, lookup_effect, begin, finish}
use nova_ai_agent.Skills.Ledger.Writes.{HasLedger}
use nova_ai_agent.Skills.Ledger.Book.{Attempt, book, attempt_all, enter_all, attempt_all-book}
use nova_ai_agent.Skills.Api.{
  ToolResult, valid, fixed, Tool, action_for, core, Manifest, Skill, get,
}
use nova_ai_agent.Skills.Loading.{
  SkillStatus, Folder, imported, enabled, planned, load, load_tool, check_files,
}
use nova_ai_agent.Skills.Loading.Sound.{IsLoaded, IsServed, load_sound}
use nova_ai_agent.Skills.Quiet.{Quiet-pure, Quiet-raise, QuietTool}
use nova_ai_agent.Skills.Prepare.{SkillRunner, Invocation, Prepared, prepare, run_precheck}
use nova_ai_agent.Skills.Runner.{redact_fields, already_done, stopped, invoke, pass_ledger}
use nova_ai_agent.Skills.Runner.Calls.{invoke_all}
use nova_ai_agent.Skills.Runner.Once.{invoke_once, invoke_cut_off}
use nova_ai_agent.Skills.Runner.Gated.{running, gate_stops_run}
use nova_ai_agent.Tests.Sample.{running_task, db, env, work}

abbrev moving : Env
moving = record env { actions = ("file.move", green) ∷ [] }

abbrev moved : ToolResult
moved = record { ok = true; summary = "moved"; content = end; evidence = end; untrusted = false }

abbrev mover : Run ToolResult → Tool
mover m = record {
  name = "move";
  validate = valid;
  run = λ p e. m;
  action = fixed "file.move";
  target = λ p. "a.txt";
  summary = λ p. "move a.txt";
  safety_check = none;
  precheck = none;
}

abbrev manifest : Manifest
manifest = record {
  name = "files";
  version = "1";
  description = "files";
  worker = core;
  platforms = "win32" ∷ [];
  tools = "move" ∷ [];
}

abbrev files : Run ToolResult → Skill
files m = record {
  manifest = manifest;
  tools = ("move", mover m) ∷ [];
  declared = ("move", "file.move" ∷ []) ∷ [];
}

abbrev runner : Run ToolResult → SkillRunner
runner m = record { registry = ("files", files m) ∷ []; has_audit = true; has_ledger = true }

abbrev call : Invocation
call = record {
  skill = "files";
  tool = "move";
  params = field "to" (text "b") end;
  allowed_skills = some ("files" ∷ []);
  agent = "files";
  nonce = "n3";
}

abbrev request : Run ToolResult → Prepared
request m = record {
  tool = mover m;
  params = field "to" (text "b") end;
  env = record { task_id = 2 };
  action = "file.move";
}

abbrev start : Work
start = work db running_task

abbrev works : Run ToolResult
works = pure moved

abbrev fails : Run ToolResult
fails = raise (error "cut off")

works-QuietTool : QuietTool (mover works)
unfolding action_for run_precheck
works-QuietTool = record {
  run = λ p e. Quiet-pure moved;
  action = λ p e. Quiet-pure "file.move";
  precheck = λ p e. Quiet-pure tt;
  safety_check = λ f e. cc;
}

fails-QuietTool : QuietTool (mover fails)
unfolding action_for run_precheck
fails-QuietTool = record {
  run = λ p e. Quiet-raise (error "cut off");
  action = λ p e. Quiet-pure "file.move";
  precheck = λ p e. Quiet-pure tt;
  safety_check = λ f e. cc;
}

ready : (m : Run ToolResult) → (prepare (runner m) call start).0 ≡ ok (request m)
unfolding prepare get action_for run_precheck
ready m = refl

-- A call, and the same call twice after it.
abbrev later : Run ToolResult → Work
later m = invoke_all moving (runner m) (call ∷ []) (invoke moving (runner m) call start).1

invoke_once_example :
    (summary : String) × (invoke moving (runner works) call (later works)
      ≡ (ok (already_done summary), (prepare (runner works) call (later works)).1))
unfolding invoke invoke_all prepare get action_for run_precheck is_side_effect require evaluate
    lookup_effect begin finish find_effect put_effect effect_key redact_fields
invoke_once_example =
    invoke_once moving (runner works) ((works-QuietTool, tt), tt) call (request works) start
      (ground arith) (ready works) refl (call ∷ []) call (request works) refl
      (record { action = refl; target = refl; params = refl }) moved refl refl

invoke_cut_off_example :
    invoke moving (runner fails) call (later fails)
    ≡ (err (task_blocked (stopped (request fails))), (prepare (runner fails) call (later fails)).1)
unfolding invoke invoke_all prepare get action_for run_precheck is_side_effect require evaluate
    lookup_effect begin finish effect_key
invoke_cut_off_example =
    invoke_cut_off moving (runner fails) ((fails-QuietTool, tt), tt) call (request fails) start
      (ground arith) (ready fails) refl (call ∷ []) call (request fails) refl
      (record { action = refl; target = refl; params = refl }) (error "cut off") refl refl

not_ok : (r : Result (Unit {0})) (e : Exc) → r ≡ err e → r ≢ ok tt
not_ok r e h k = cc

gate_stops_run_example :
    pass_ledger env (runner works) call (request works) start
    ≡ pass_ledger env (runner works) call (running (λ p e. fails) (request works)) start
unfolding require evaluate find first_usable on_db ask_for by_nonce
gate_stops_run_example =
    gate_stops_run env (runner works) call (request works) (λ p e. fails) start
      (not_ok _ (approval_pending 2) refl)

abbrev attempts : List Attempt
attempts =
    record { task_id = 2; key = "k"; action = "file.move"; target = "a"; outcome = none }
    ∷ record {
      task_id = 2;
      key = "k";
      action = "file.move";
      target = "a";
      outcome = some (true, "moved");
    }
    ∷ []

attempt_all-book_example :
    (book (attempt_all attempts db) ≡ enter_all attempts (book db))
    × HasLedger (attempt_all attempts db)
attempt_all-book_example = attempt_all-book attempts db (ground arith)

abbrev folder : Folder
folder = record {
  files = "SKILL.md" ∷ "manifest.json" ∷ "permissions.json" ∷ [];
  has_tests = true;
  manifest = some manifest;
  declared = ("move", "file.move" ∷ []) ∷ [];
  module_at = λ name. some (imported (mover works));
}

abbrev skills : List (String × SkillStatus)
skills = ("files", enabled) ∷ ("voice", planned) ∷ []

load_sound_example :
    All (IsLoaded "win32") (("files", files works) ∷ [])
    × All (IsServed "win32" (λ name. some folder) (("files", files works) ∷ [])) skills
unfolding load load_tool check_files text_in
load_sound_example =
    load_sound "win32" (λ name. some folder) skills (("files", files works) ∷ []) refl
