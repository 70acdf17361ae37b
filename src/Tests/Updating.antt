-- ===== src/Tests/Updating.antt =====
-- The theorem on updates, at a concrete machine.
use nova_ai_agent.Prelude.{
  ◌≡◌, refl, String, Bool, true, false, none, List, [], ◌∷◌, str_eq, if◌then◌else◌,
}
use nova_ai_agent.Updater.{Plan, Host, apply_update}
use nova_ai_agent.Updater.Settled.{Behaves, Settled, apply_update-Settled}

abbrev plan : Plan
plan = record {
  python = "python";
  uv = "uv";
  from_commit = "a";
  to_commit = "b";
  remote = "origin";
  branch = "main";
  run_unit_tests = true;
}

-- HEAD, and whether the children run.
abbrev Machine : Type 0
Machine = String × Bool

abbrev moved_by : List String → String → String
moved_by [] head = head
moved_by (verb ∷ argv) head =
    if str_eq verb "merge" then "b" else if str_eq verb "reset" then "a" else head

-- A machine on which only the old version is healthy.
abbrev host : Host Machine
host = record {
  head = λ w. w.0;
  git = λ argv w. ((true, ""), (moved_by argv w.0, w.1));
  run = λ argv w. (true, w);
  revision = λ w. none;
  has_database = λ w. true;
  backup = λ w. (true, w);
  restore = λ w. (true, w);
  stop_all = λ w. (w.0, false);
  start_all = λ w. (w.0, true);
  healthy = λ c w. (str_eq c "a", w);
  write_result = λ o w. w;
}

abbrev Runs : Machine → Type 0
Runs w = w.1 ≡ true

behaved : Behaves host plan Runs Unit
behaved = record {
  starts = λ w. refl;
  healthy_live = λ c w h. h;
  write_live = λ o w h. h;
  start_head = λ w. refl;
  stop_head = λ w. refl;
  healthy_head = λ c w. refl;
  write_head = λ o w. refl;
  run_head = λ argv w. refl;
  backup_head = λ w. refl;
  restore_head = λ w. refl;
  status_head = λ w. refl;
  fetch_head = λ w. refl;
  ancestor_head = λ w. refl;
  ancestor_known = λ w h. tt;
  merge_head = λ w a s h. refl;
  reset_moves = λ w h. refl;
}

apply_update-Settled_example : Settled host plan Runs Unit "a" (apply_update host plan ("a", true))
apply_update-Settled_example = apply_update-Settled host plan Runs Unit ("a", true) behaved
