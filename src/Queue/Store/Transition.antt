-- ===== src/Queue/Store/Transition.antt =====
-- What `transition` of core/queue/store.py does to the table, on every path.
use nova_ai_agent.Prelude.{
  ℕ, ◌≡◌, refl, true, false, Option, none, some, List, [], ◌∷◌, arith, ◌==◌, All, if◌then◌else◌,
}
use nova_ai_agent.Exec.{Exc, ok, err, invalid_transition}
use nova_ai_agent.Queue.States.{TaskState, can_transition}
use nova_ai_agent.Db.{Task, Db, get_task, save_task}
use nova_ai_agent.Db.Rows.{find_task-put_task, find_task-id}
use nova_ai_agent.Queue.Store.{
  Field, retry_count, result_summary, error_code, error_message, unknown, set_fields, moved,
  transition, transition_row,
}

-- The columns that no keyword argument of `transition` touches.
pub record SameCore (a b : Task) : Type 0 where
  pub id : a.id ≡ b.id
  pub state : a.state ≡ b.state
  pub paused_from : a.paused_from ≡ b.paused_from
  pub cancel_requested : a.cancel_requested ≡ b.cancel_requested
  pub pause_requested : a.pause_requested ≡ b.pause_requested
  pub started_at : a.started_at ≡ b.started_at
  pub finished_at : a.finished_at ≡ b.finished_at
  pub steps : a.steps ≡ b.steps

SameCore-refl : (a : Task) → SameCore a a
SameCore-refl a = record {
  id = refl;
  state = refl;
  paused_from = refl;
  cancel_requested = refl;
  pause_requested = refl;
  started_at = refl;
  finished_at = refl;
  steps = refl;
}

pub set_fields-SameCore : (fs : List Field) (a b : Task) → set_fields fs a ≡ ok b → SameCore a b
unfolding set_fields
set_fields-SameCore [] a b h = ground arith
set_fields-SameCore (retry_count n ∷ fs) a b h =
    ground (arith, set_fields-SameCore fs (record a { retry_count = n }) b)
set_fields-SameCore (result_summary v ∷ fs) a b h =
    ground (arith, set_fields-SameCore fs (record a { result_summary = v }) b)
set_fields-SameCore (error_code v ∷ fs) a b h =
    ground (arith, set_fields-SameCore fs (record a { error_code = v }) b)
set_fields-SameCore (error_message v ∷ fs) a b h =
    ground (arith, set_fields-SameCore fs (record a { error_message = v }) b)
set_fields-SameCore (unknown k ∷ fs) a b h = cc

-- A transition that raises, for a missing task, a forbidden change of state or an unknown column,
-- leaves the whole database as it was.
pub transition_error_unchanged :
    (i : ℕ) (dst : TaskState) (fs : List Field) (db : Db) {e : Exc}
    → (transition i dst fs db).0 ≡ err e
    → (transition i dst fs db).1 ≡ db
unfolding transition
transition_error_unchanged i dst fs db h = ground arith

-- A successful transition from the row that it found.
pub record Transitioned (i : ℕ) (dst : TaskState) (db : Db) (new : Task) (db' : Db) : Type 0 where
  pub old : Task
  pub found : get_task db i ≡ some old
  pub allowed : can_transition old.state dst ≡ true
  pub same : SameCore (moved dst db.clock old) new
  pub saved : db' ≡ save_task new db

transition_row-Transitioned :
    (o : Option Task) (i : ℕ) (dst : TaskState) (fs : List Field) (db : Db) (new : Task)
    → get_task db i ≡ o
    → (transition_row o i dst fs db).0 ≡ ok new
    → Transitioned i dst db new (transition_row o i dst fs db).1
unfolding transition_row
transition_row-Transitioned none i dst fs db new e h = cc
transition_row-Transitioned (some t) i dst fs db new e h =
    let c : can_transition t.state dst ≡ true = ground arith in
    let r : set_fields fs (moved dst db.clock t) ≡ ok new = ground arith in
    record {
      old = t;
      found = e;
      allowed = c;
      same = set_fields-SameCore fs (moved dst db.clock t) new r;
      saved = ground arith;
    }

pub transition-Transitioned :
    (i : ℕ) (dst : TaskState) (fs : List Field) (db : Db) (new : Task)
    → (transition i dst fs db).0 ≡ ok new
    → Transitioned i dst db new (transition i dst fs db).1
unfolding transition
transition-Transitioned i dst fs db new h =
    transition_row-Transitioned (get_task db i) i dst fs db new refl h

-- A successful transition was allowed from the state of the row. The returned row is in the new
-- state and is what the table now holds at that id; every other row, and every other table, stays.
pub transition_ok :
    (i j : ℕ) (dst : TaskState) (fs : List Field) (db : Db) (new : Task)
    → (transition i dst fs db).0 ≡ ok new
    → (new.id ≡ i)
      × (new.state ≡ dst)
      × (get_task (transition i dst fs db).1 j ≡ (if i == j then some new else get_task db j))
      × ((transition i dst fs db).1 ≡ record db { tasks = (transition i dst fs db).1.tasks })
unfolding moved
transition_ok i j dst fs db new h =
    let s = transition-Transitioned i dst fs db new h in
    let old_id = find_task-id i db.tasks s.old s.found in
    let new_id : new.id ≡ i = ground (arith, s.same.id) in
    (
      new_id,
      ground (arith, s.same.state),
      rw s.saved (ground (arith, find_task-put_task j new db.tasks, s.found)),
      ground (arith, s.saved),
    )

abbrev IsKnown : Field → Type 0
IsKnown (unknown k) = ⊥
IsKnown _ = Unit

set_fields_known :
    (fs : List Field) (t : Task) → All IsKnown fs → (new : Task) × (set_fields fs t ≡ ok new)
unfolding set_fields
set_fields_known [] t h = (t, refl)
set_fields_known (retry_count n ∷ fs) t h = set_fields_known fs (record t { retry_count = n }) h.1
set_fields_known (result_summary v ∷ fs) t h =
    set_fields_known fs (record t { result_summary = v }) h.1
set_fields_known (error_code v ∷ fs) t h = set_fields_known fs (record t { error_code = v }) h.1
set_fields_known (error_message v ∷ fs) t h =
    set_fields_known fs (record t { error_message = v }) h.1
set_fields_known (unknown k ∷ fs) t h = absurd h.0

-- A transition succeeds when the task exists, the change of state is allowed and the keyword
-- arguments are columns.
pub transition_succeeds :
    (i : ℕ) (dst : TaskState) (fs : List Field) (db : Db) (old : Task)
    → All IsKnown fs
    → get_task db i ≡ some old
    → can_transition old.state dst ≡ true
    → (new : Task) × ((transition i dst fs db).0 ≡ ok new)
unfolding transition
transition_succeeds i dst fs db old k e c =
    let (new, r) = set_fields_known fs (moved dst db.clock old) k in (new, ground arith)

-- A forbidden change of state raises InvalidTransition.
pub transition_refused :
    (i : ℕ) (dst : TaskState) (fs : List Field) (db : Db) (old : Task)
    → get_task db i ≡ some old
    → can_transition old.state dst ≡ false
    → transition i dst fs db ≡ (err (invalid_transition i old.state dst), db)
unfolding transition
transition_refused i dst fs db old e c = ground arith

-- Whatever its outcome, a transition writes to no table but that of the tasks.
pub transition_frame :
    (i : ℕ) (dst : TaskState) (fs : List Field) (db : Db)
    → (transition i dst fs db).1 ≡ record db { tasks = (transition i dst fs db).1.tasks }
unfolding transition
transition_frame i dst fs db = ground arith
