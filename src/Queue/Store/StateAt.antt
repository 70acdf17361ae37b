-- ===== src/Queue/Store/StateAt.antt =====
-- The state of one task through the writes of core/queue/store.py.
use mathlib.Core.Path.{subst}
use nova_ai_agent.Prelude.{
  ℕ, ◌≡◌, refl, String, Option, none, some, List, arith, ◌==◌, ==_sound, Bool-cases, sym, ap, ◌∙◌,
  ◌⊎◌, inl, inr,
}
use nova_ai_agent.Exec.{Result, ok, err}
use nova_ai_agent.Queue.States.{TaskState}
use nova_ai_agent.Db.{TaskStep, Task, Db, get_task, save_task, find_task, find_step, put_step}
use nova_ai_agent.Db.Rows.{find_task-put_task, find_task-id}
use nova_ai_agent.Queue.Store.{Field, transition}
use nova_ai_agent.Queue.Store.Transition.{transition_ok, transition_error_unchanged}
use nova_ai_agent.Queue.Store.Steps.{
  plan_row, ensure_plan_row, ensure_plan, update_found, update_row, update_step, back_to_pending,
  reset_step,
}

abbrev pub state_of_row : Option Task → Option TaskState
state_of_row none = none
state_of_row (some t) = some t.state

abbrev pub state_at : ℕ → Db → Option TaskState
state_at i db = state_of_row (get_task db i)

-- A transition that returns leaves the task in the new state, and one that raises changes nothing.
pub transition_state :
    (i : ℕ) (dst : TaskState) (fs : List Field) (db : Db) (r : Result Task)
    → (transition i dst fs db).0 ≡ r
    → ((t : Task) → r ≡ ok t → state_at i (transition i dst fs db).1 ≡ some dst)
      × (((transition i dst fs db).1 ≡ db) ⊎ ((t : Task) × (r ≡ ok t)))
transition_state i dst fs db (ok t) e =
    (λ _ _. let s = transition_ok i i dst fs db t e in rw s.2 (ground (arith, s.1)), inr (t, refl))
transition_state i dst fs db (err x) e = (λ t p. cc, inl (transition_error_unchanged i dst fs db e))

-- A row that replaces one of its id and state changes the state of no task.
same_state :
    (i j : ℕ) (t r : Task) (db : Db)
    → get_task db i ≡ some t
    → r.id ≡ t.id
    → r.state ≡ t.state
    → state_at j (save_task r db) ≡ state_at j db
same_state i j t r db e p q =
    let at_i = find_task-id i db.tasks t e in
    rw (find_task-put_task j r db.tasks) (elim (Bool-cases (r.id == j)) [
      | inl c ↦
          let same : i ≡ j = sym at_i ∙ sym p ∙ ==_sound r.id j c in
          let found = subst (λ k. find_task k db.tasks ≡ some t) same e in rw (c, found) (ap some q)
      | inr c ↦ rw c
    ])

update_found_state :
    (i j q : ℕ) (change : TaskStep → TaskStep) (t : Task) (o : Option TaskStep) (db : Db)
    → get_task db i ≡ some t
    → state_at j (update_found o t q change db).1 ≡ state_at j db
unfolding update_found
update_found_state i j q change t none db e = refl
update_found_state i j q change t (some s) db e =
    same_state i j t (record t { steps = put_step (change s) t.steps }) db e refl refl

update_row_state :
    (i j q : ℕ) (change : TaskStep → TaskStep) (o : Option Task) (db : Db)
    → get_task db i ≡ o
    → state_at j (update_row o q change db).1 ≡ state_at j db
unfolding update_row
update_row_state i j q change none db e = refl
update_row_state i j q change (some t) db e =
    update_found_state i j q change t (find_step q t.steps) db e

pub update_step_state :
    (i q : ℕ) (change : TaskStep → TaskStep) (j : ℕ) (db : Db)
    → state_at j (update_step i q change db).1 ≡ state_at j db
unfolding update_step
update_step_state i q change j db = update_row_state i j q change (get_task db i) db refl

pub reset_step_state : (i q j : ℕ) (db : Db) → state_at j (reset_step i q db).1 ≡ state_at j db
unfolding reset_step
reset_step_state i q j db = update_step_state i q back_to_pending j db

ensure_row_state :
    (i j : ℕ) (titles : List String) (o : Option Task) (db : Db)
    → get_task db i ≡ o
    → state_at j (ensure_plan_row o i titles db).1 ≡ state_at j db
unfolding ensure_plan_row
ensure_row_state i j titles none db e = refl
ensure_row_state i j titles (some t) db e =
    same_state i j t (record t { steps = plan_row t.steps titles }) db e refl refl

pub ensure_plan_state :
    (i : ℕ) (titles : List String) (j : ℕ) (db : Db)
    → state_at j (ensure_plan i titles db).1 ≡ state_at j db
unfolding ensure_plan
ensure_plan_state i titles j db = ensure_row_state i j titles (get_task db i) db refl
