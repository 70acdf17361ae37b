-- ===== src/Queue/Store/Invariant.antt =====
-- What holds of the table of tasks between two transactions of core/queue/store.py.
pub mod Kept
use nova_ai_agent.Prelude.{
  ℕ, suc, ◌+◌, ◌≤◌, ◌≡◌, refl, String, Bool, true, false, Option, none, some, List, [], ◌∷◌, ◌++◌,
  map, arith, All, All-append, if◌then◌else◌, ◌==◌, ==_sound, Bool-cases, inl, inr,
}
use nova_ai_agent.Exec.{Exec, Result, ok, err}
use nova_ai_agent.Exec.Keeps.{Keeps, Keeps-bind}
use nova_ai_agent.Queue.States.{TaskState, terminal, can_transition, is_paused, is_running, active}
use nova_ai_agent.Db.{Task, TaskStep, Db, find_task, put_task, find_step, get_task, save_task}
use nova_ai_agent.Db.Rows.{find_task-All, put_task-All}
use nova_ai_agent.Queue.Store.{Action, Field, create, moved, transition, transition_row, set_fields}
use nova_ai_agent.Queue.Store.Transition.{
  SameCore, Transitioned, transition-Transitioned, transition_error_unchanged,
}
use nova_ai_agent.Queue.Store.Steps.{
  update_step, update_row, update_found, ensure_plan, ensure_plan_row,
}

abbrev pub present : Option ℕ → Bool
present none = false
present (some n) = true

abbrev pub present_state : Option TaskState → Bool
present_state none = false
present_state (some s) = true

-- A row keeps its state and its bookkeeping together.
pub record IsRow (t : Task) : Type 0 where
  pub finished_iff : terminal t.state ≡ present t.finished_at
  pub paused_iff : is_paused t.state ≡ present_state t.paused_from
  pub started : is_running t.state ≡ true → present t.started_at ≡ true
  pub quiet : terminal t.state ≡ true → (t.cancel_requested ≡ false) × (t.pause_requested ≡ false)
  pub paused_quiet : is_paused t.state ≡ true → t.pause_requested ≡ false

-- The ids grow along the table, from `low` on, and stay below `high`.
abbrev pub IsOrdered : ℕ → List Task → ℕ → Type 0
IsOrdered low [] high = low ≤ high
IsOrdered low (t ∷ ts) high = (low ≤ t.id) × IsOrdered (suc t.id) ts high

pub record IsTable (db : Db) : Type 0 where
  pub rows : All IsRow db.tasks
  pub ordered : IsOrdered 0 db.tasks db.next_task

moved-IsRow :
    (dst : TaskState) (now : ℕ) (t : Task)
    → IsRow t
    → can_transition t.state dst ≡ true
    → IsRow (moved dst now t)
unfolding moved terminal can_transition
moved-IsRow dst now t h c = ground arith

SameCore-IsRow : (a b : Task) → SameCore a b → IsRow a → IsRow b
unfolding terminal
SameCore-IsRow a b s h = ground arith

put_task-IsOrdered :
    (r : Task) (low : ℕ) (ts : List Task) (high : ℕ)
    → IsOrdered low ts high
    → IsOrdered low (put_task r ts) high
unfolding put_task
put_task-IsOrdered r low [] high h = h
put_task-IsOrdered r low (u ∷ ts) high h = elim (Bool-cases (u.id == r.id)) [
  | inl c ↦ rw c (omega (arith, ==_sound u.id r.id c), rw (← ==_sound u.id r.id c) h.1)
  | inr c ↦ rw c (h.0, put_task-IsOrdered r (suc u.id) ts high h.1)
]

-- A row that is well formed may replace any row.
pub save_task-IsTable : (r : Task) (db : Db) → IsRow r → IsTable db → IsTable (save_task r db)
save_task-IsTable r db h k = record {
  rows = put_task-All IsRow r db.tasks h k.rows;
  ordered = put_task-IsOrdered r 0 db.tasks db.next_task k.ordered;
}

pub transition-IsTable :
    (i : ℕ) (dst : TaskState) (fs : List Field) → Keeps IsTable (transition i dst fs)
transition-IsTable i dst fs = record { at = λ s h. by_result (transition i dst fs s).0 s h refl }
  where
    by_result :
        (r : Result Task) (s : Db)
        → IsTable s
        → (transition i dst fs s).0 ≡ r
        → IsTable (transition i dst fs s).1
    by_result (err e) s h p = rw (transition_error_unchanged i dst fs s p) h
    by_result (ok new) s h p =
        let m = transition-Transitioned i dst fs s new p in
        let old = find_task-All IsRow i s.tasks m.old h.rows m.found in
        let row =
          SameCore-IsRow (moved dst s.clock m.old) new m.same
            (moved-IsRow dst s.clock m.old old m.allowed) in
        rw m.saved (save_task-IsTable new s row h)

All-map-IsRow :
    (f : Task → Task) (ts : List Task)
    → ((t : Task) → IsRow t → IsRow (f t))
    → All IsRow ts
    → All IsRow (map f ts)
All-map-IsRow f [] k h = tt
All-map-IsRow f (t ∷ ts) k h = (k t h.0, All-map-IsRow f ts k h.1)

map-IsOrdered :
    (f : Task → Task) (low : ℕ) (ts : List Task) (high : ℕ)
    → ((t : Task) → (f t).id ≡ t.id)
    → IsOrdered low ts high
    → IsOrdered low (map f ts) high
map-IsOrdered f low [] high k h = h
map-IsOrdered f low (t ∷ ts) high k h =
    (rw (k t) h.0, map-IsOrdered f (suc (f t).id) ts high k (rw (k t) h.1))

pub map-IsTable :
    (f : Task → Task) (db : Db)
    → ((t : Task) → IsRow t → IsRow (f t))
    → ((t : Task) → (f t).id ≡ t.id)
    → IsTable db
    → IsTable (record db { tasks = map f db.tasks })
map-IsTable f db k l h = record {
  rows = All-map-IsRow f db.tasks k h.rows;
  ordered = map-IsOrdered f 0 db.tasks db.next_task l h.ordered;
}

append-IsOrdered :
    (low : ℕ) (ts : List Task) (t : Task)
    → IsOrdered low ts t.id
    → IsOrdered low (ts ++ t ∷ []) (suc t.id)
append-IsOrdered low [] t h = (h, omega arith)
append-IsOrdered low (u ∷ ts) t h = (h.0, append-IsOrdered (suc u.id) ts t h.1)

pub create-IsTable :
    (title request_text task_type channel chat_id : String) (priority : ℕ)
    → Keeps IsTable (create title request_text task_type channel chat_id priority)
unfolding create terminal
create-IsTable title request_text task_type channel chat_id priority = record {
  at = λ s h. record {
    rows = All-append IsRow s.tasks _ h.rows (ground arith, tt);
    ordered = append-IsOrdered 0 s.tasks _ h.ordered;
  };
}

-- A row whose steps alone are replaced stays well formed.
pub steps-IsRow : (t : Task) (ss : List TaskStep) → IsRow t → IsRow (record t { steps = ss })
unfolding terminal
steps-IsRow t ss h = ground arith

pub update_step-IsTable :
    (i q : ℕ) (change : TaskStep → TaskStep) → Keeps IsTable (update_step i q change)
unfolding update_step
update_step-IsTable i q change = record { at = λ s h. by_row (get_task s i) s h refl }
  where
    by_step :
        (o : Option TaskStep) (t : Task) (s : Db)
        → IsTable s
        → IsRow t
        → IsTable (update_found o t q change s).1
    by_step none t s h r = h
    by_step (some x) t s h r = save_task-IsTable _ s (steps-IsRow t _ r) h

    by_row :
        (o : Option Task) (s : Db)
        → IsTable s
        → get_task s i ≡ o
        → IsTable (update_row o q change s).1
    by_row none s h e = h
    by_row (some t) s h e =
        by_step (find_step q t.steps) t s h (find_task-All IsRow i s.tasks t h.rows e)

pub ensure_plan-IsTable : (i : ℕ) (titles : List String) → Keeps IsTable (ensure_plan i titles)
unfolding ensure_plan
ensure_plan-IsTable i titles = record { at = λ s h. by_row (get_task s i) s h refl }
  where
    by_row :
        (o : Option Task) (s : Db)
        → IsTable s
        → get_task s i ≡ o
        → IsTable (ensure_plan_row o i titles s).1
    by_row none s h e = h
    by_row (some t) s h e =
        save_task-IsTable _ s (steps-IsRow t _ (find_task-All IsRow i s.tasks t h.rows e)) h
