-- ===== src/Queue/Store/Requests.antt =====
-- Cancel and pause requests of core/queue/store.py, on every path.
use nova_ai_agent.Prelude.{
  ℕ, ◌≡◌, refl, true, false, Option, none, some, arith, Bool-cases, inl, inr, if◌then◌else◌,
  if◌then◌else◌,
}
use nova_ai_agent.Exec.{Result, ok}
use nova_ai_agent.Queue.States.{TaskState, cancelled, terminal, active, can_transition}
use nova_ai_agent.Db.{Task, Db, get_task, save_task}
use nova_ai_agent.Queue.Store.{moved, set_fields, transition}
use nova_ai_agent.Queue.Store.Control.{
  CancelOutcome, cancelled_now, requested, already_finished, not_found, request_cancel,
  cancelled_by_user,
}

active_not_terminal : (s : TaskState) → active s ≡ true → terminal s ≡ false
unfolding active terminal
active_not_terminal s h = ground arith

abbrev pub cancelled_row : ℕ → Task → Task
cancelled_row now t = record (moved cancelled now t) { error_code = some "CANCELLED_BY_USER" }

pub transition_to_cancelled :
    (i : ℕ) (db : Db) (t : Task)
    → get_task db i ≡ some t
    → terminal t.state ≡ false
    → transition i cancelled cancelled_by_user db
      ≡ (ok (cancelled_row db.clock t), save_task (cancelled_row db.clock t) db)
unfolding transition set_fields can_transition terminal
transition_to_cancelled i db t e n = ground arith

cancel_missing : (i : ℕ) (db : Db) → get_task db i ≡ none → request_cancel i db ≡ (ok not_found, db)
unfolding request_cancel
cancel_missing i db e = ground arith

-- What a cancel request answers and writes, by the row that it finds.
abbrev pub cancel_answer : Option Task → Db → Result CancelOutcome × Db
cancel_answer none db = (ok not_found, db)
cancel_answer (some t) db =
    if terminal t.state
    then (ok already_finished, db)
    else if active t.state
    then (ok requested, save_task (record t { cancel_requested = true }) db)
    else (ok cancelled_now, save_task (cancelled_row db.clock t) db)

cancel_found :
    (i : ℕ) (db : Db) (t : Task)
    → get_task db i ≡ some t
    → request_cancel i db ≡ cancel_answer (some t) db
unfolding request_cancel
cancel_found i db t e = elim (Bool-cases (terminal t.state)) [
  | inl f ↦ ground arith
  | inr f ↦ elim (Bool-cases (active t.state)) [
    | inl a ↦ ground arith
    | inr a ↦ ground (arith, transition_to_cancelled i db t)
  ]
]

-- A cancel request never raises. A missing or finished task is left alone; of a task at work only
-- the flag is set; any other task is cancelled at once, with its code.
pub request_cancel_outcome :
    (i : ℕ) (db : Db) → request_cancel i db ≡ cancel_answer (get_task db i) db
request_cancel_outcome i db = by_row (get_task db i) refl
  where
    by_row : (o : Option Task) → get_task db i ≡ o → request_cancel i db ≡ cancel_answer o db
    by_row none e = cancel_missing i db e
    by_row (some t) e = cancel_found i db t e
