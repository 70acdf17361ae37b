-- ===== src/Updater.antt =====
-- core/supervisor/updater.py: an approved update with its rollback. `Host` is what git, uv, the
-- database's files and the supervisor's hooks do to the machine: for a command, whether it exits with
-- 0 and what it prints. Log lines, the list of steps, the reasons and the backup's path are left out.
pub mod Settled
use nova_ai_agent.Prelude.{
  String, Bool, true, false, not, ◌&&◌, ◌||◌, Option, none, some, List, [], ◌∷◌, str_eq,
  if◌then◌else◌,
}

pub record Plan : Type 0 where
  pub python : String
  pub uv : String
  pub from_commit : String
  pub to_commit : String
  pub remote : String
  pub branch : String
  pub run_unit_tests : Bool

pub data Status : Type 0 where
  pending pending_health updated rolled_back : Status

pub record Outcome : Type 0 where
  pub status : Status
  pub failed_step : String
  pub db_backup : Bool
  pub db_restored : Bool
  pub rollback_ok : Option Bool

pub record Host (W : Type 0) : Type 0 where
  pub head : W → String
  pub git : List String → W → (Bool × String) × W
  pub run : List String → W → Bool × W
  pub revision : W → Option String
  pub has_database : W → Bool
  pub backup : W → Bool × W
  pub restore : W → Bool × W
  pub stop_all : W → W
  pub start_all : W → W
  pub healthy : String → W → Bool × W
  pub write_result : Outcome → W → W

abbrev pub new_outcome : Outcome
new_outcome = record {
  status = pending;
  failed_step = "";
  db_backup = false;
  db_restored = false;
  rollback_ok = none;
}

abbrev pub same_revision : Option String → Option String → Bool
same_revision none none = true
same_revision (some a) (some b) = str_eq a b
same_revision _ _ = false

module _ {W : Type 0} (host : Host W) (plan : Plan) where
  abbrev pub sync : List String
  sync = plan.uv ∷ "sync" ∷ "--frozen" ∷ "--all-extras" ∷ []

  abbrev pub reset : List String
  reset = "reset" ∷ "--hard" ∷ plan.from_commit ∷ []

  -- The end of a rollback: `well` says that there was no problem before.
  unfoldable pub start_old : Outcome → (well : Bool) → W → Outcome × W
  start_old out well w =
      let (ok, w') = host.healthy plan.from_commit (host.start_all (host.write_result out w)) in
      let end = record out { rollback_ok = some (well && ok) } in (end, host.write_result end w')

  unfoldable pub restore_database : Outcome → Option String → (well : Bool) → W → Outcome × W
  unfolding start_old
  restore_database out before well w =
      if out.db_backup && not (same_revision (host.revision w) before)
      then (let (ok, w') = host.restore w in
          start_old (record out { db_restored = ok }) (well && ok) w')
      else start_old out well w

  unfoldable pub sync_old : Outcome → Option String → (well : Bool) → W → Outcome × W
  unfolding restore_database
  sync_old out before well w =
      let (ok, w') = host.run sync w in restore_database out before (well && ok) w'

  unfoldable pub reset_head : Outcome → Option String → W → Outcome × W
  unfolding sync_old
  reset_head out before w =
      if str_eq (host.head w) plan.from_commit
      then sync_old out before true w
      else (let ((ok, text), w') = host.git reset w in sync_old out before ok w')

  -- rollback(plan, hooks, out, rev_before)
  unfoldable pub rollback : Outcome → Option String → W → Outcome × W
  unfolding reset_head
  rollback out before w = reset_head (record out { status = rolled_back }) before w

  -- fail(name, why)
  unfoldable pub fail : String → Outcome → Option String → W → Outcome × W
  unfolding rollback
  fail step out before w = rollback (record out { failed_step = step }) before w

  -- The return before anything has changed.
  unfoldable pub come_back : String → Outcome → W → Outcome × W
  come_back step out w =
      let end = record out { failed_step = step; status = rolled_back; rollback_ok = some true } in
      (end, host.write_result end (host.start_all w))

  unfoldable pub judge_health : Outcome → Option String → Bool × W → Outcome × W
  unfolding fail
  judge_health out before (true, w) =
      let end = record out { status = updated } in (end, host.write_result end w)
  judge_health out before (false, w) = fail "health" out before (host.stop_all w)

  unfoldable pub start_new : Outcome → Option String → W → Outcome × W
  unfolding judge_health
  start_new out before w =
      let started = record out { status = pending_health } in
      judge_health started before
        (host.healthy plan.to_commit (host.start_all (host.write_result started w)))

  -- A step that runs a command, and goes on when it exits with 0.
  unfoldable pub step :
      String
      → List String
      → (Outcome → Option String → W → Outcome × W)
      → Outcome
      → Option String
      → W
      → Outcome × W
  unfolding fail
  step name argv next out before w =
      let (ok, w') = host.run argv w in if ok then next out before w' else fail name out before w'

  unfoldable pub unit_tests : Outcome → Option String → W → Outcome × W
  unfolding step start_new
  unit_tests out before w =
      if plan.run_unit_tests
      then step "unit tests"
          (plan.python ∷ "-m" ∷ "pytest" ∷ "-q" ∷ "-x" ∷ "-p" ∷ "no:randomly" ∷ "tests/unit" ∷ [])
          start_new out before w
      else start_new out before w

  unfoldable pub preflight : Outcome → Option String → W → Outcome × W
  unfolding step unit_tests
  preflight out before w =
      step "preflight" (plan.python ∷ "-m" ∷ "core.bootstrap" ∷ "--check" ∷ []) unit_tests out
        before w

  unfoldable pub checkout : Outcome → Option String → W → Outcome × W
  unfolding step preflight fail
  checkout out before w =
      let ((ok, text), w') = host.git ("merge" ∷ "--ff-only" ∷ plan.to_commit ∷ []) w in
      if ok then step "dependencies" sync preflight out before w' else fail "checkout" out before w'

  unfoldable pub after_backup : Outcome → Option String → Bool × W → Outcome × W
  unfolding checkout come_back
  after_backup out before (true, w) = checkout (record out { db_backup = true }) before w
  after_backup out before (false, w) = come_back "backup" out w

  unfoldable pub make_backup : Outcome → Option String → W → Outcome × W
  unfolding after_backup
  make_backup out before w =
      if host.has_database w then after_backup out before (host.backup w) else checkout out before w

  unfoldable pub check_ancestor : Outcome → Option String → W → Outcome × W
  unfolding make_backup fail
  check_ancestor out before w =
      let (fetched, w₁) = host.git ("fetch" ∷ "--quiet" ∷ plan.remote ∷ plan.branch ∷ []) w in
      let ((ok, text), w₂) =
        host.git ("merge-base" ∷ "--is-ancestor" ∷ plan.from_commit ∷ plan.to_commit ∷ []) w₁ in
      if ok then make_backup out before w₂ else fail "check" out before w₂

  unfoldable pub check_clean : Outcome → Option String → W → Outcome × W
  unfolding check_ancestor come_back
  check_clean out before w =
      let ((ok, dirty), w') = host.git ("status" ∷ "--porcelain" ∷ "--untracked-files=no" ∷ []) w in
      if ok && str_eq dirty "" then check_ancestor out before w' else come_back "check" out w'

  -- apply_update(plan, hooks)
  unfoldable pub apply_update : W → Outcome × W
  unfolding check_clean come_back
  apply_update w =
      if str_eq (host.head w) plan.from_commit
      then check_clean new_outcome (host.revision w) w
      else come_back "check" new_outcome w
