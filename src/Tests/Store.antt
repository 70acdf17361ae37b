-- ===== src/Tests/Store.antt =====
-- The theorems on the store, at concrete inputs.
use mathlib.Core.List.{Memᴰ}
use nova_ai_agent.Prelude.{
  false, cut, inr, ◌⊎◌, ◌==◌, if◌then◌else◌, ℕ, ◌≡◌, refl, String, true, false, none, some, List,
  [], ◌∷◌, map, arith, All, keep,
}
use nova_ai_agent.Exec.{ok}
use nova_ai_agent.Queue.States.{
  received, planning, running, verifying, completed, active, terminal, can_transition,
}
use nova_ai_agent.Queue.States.Diagram.{Run, here, step as move, visits, completed_needs_verifying}
use nova_ai_agent.Db.{TaskStep, Task, get_task, find_task, Message, inbound}
use nova_ai_agent.Queue.Store.{
  first_by_order, first_of_two, set_fields, moved, transition, next_runnable, eligible, list_in,
}
use nova_ai_agent.Queue.Store.Transition.{transition_ok}
use nova_ai_agent.Queue.Store.Steps.{ensure_plan}
use nova_ai_agent.Queue.Store.Steps.Progress.{numbers, IsFresh, ensure_plan_saved}
use nova_ai_agent.Queue.Store.Control.{request_cancel, recover_after_restart}
use nova_ai_agent.Queue.Store.Messages.{seen_inbound, record_message, link_message}
use nova_ai_agent.Queue.Store.Messages.Inbox.{CameIn, seen_inbound-CameIn}
use nova_ai_agent.Queue.Store.Invariant.{IsTable}
use nova_ai_agent.Queue.Store.Invariant.Kept.{
  cancel, recover, change_state, perform_all, perform_all-IsTable,
}
use nova_ai_agent.Queue.Store.Picking.{
  Before, next_runnable_first, IsWaiting, next_runnable-IsWaiting,
}
use nova_ai_agent.Queue.Store.Requests.{cancel_answer, request_cancel_outcome}
use nova_ai_agent.Queue.Store.Recovery.{recovered_row, Recovered, recover_after_restart-Recovered}
use nova_ai_agent.Tests.Sample.{fresh_task, running_task, retried_task, db}

db-IsTable : IsTable db
unfolding terminal
db-IsTable = record { rows = ground arith; ordered = ground arith }

next_runnable_first_example :
    Memᴰ retried_task db.tasks
    × (eligible ("demo" ∷ []) none retried_task ≡ true)
    × All (Before retried_task) (keep (eligible ("demo" ∷ []) none) db.tasks)
unfolding next_runnable first_by_order eligible first_of_two
next_runnable_first_example = next_runnable_first ("demo" ∷ []) none db retried_task refl

picked : next_runnable ("demo" ∷ []) none db ≡ some retried_task
unfolding next_runnable first_by_order eligible first_of_two
picked = refl

next_runnable-IsWaiting_example :
    (u : Task) × (next_runnable ("demo" ∷ []) none db ≡ some u)
    × Memᴰ u db.tasks
    × IsWaiting ("demo" ∷ []) none u
    × Before u retried_task
next_runnable-IsWaiting_example =
    next_runnable-IsWaiting ("demo" ∷ []) none db retried_task
      (next_runnable_first ("demo" ∷ []) none db retried_task picked).0
      (record { fresh = inr refl; typed = Memᴰ.head refl; lane = tt })

request_cancel_outcome_example : request_cancel 2 db ≡ cancel_answer (get_task db 2) db
request_cancel_outcome_example = request_cancel_outcome 2 db

recover_after_restart-Recovered_example :
    ((recover_after_restart db).0 ≡ ok (map (recovered_row db.clock) (list_in active db)))
    × ((new : Task) × (get_task (recover_after_restart db).1 2 ≡ some new)
        × Recovered running_task new)
unfolding find_task
recover_after_restart-Recovered_example =
    recover_after_restart-Recovered db 2 running_task db-IsTable refl

perform_all-IsTable_example :
    IsTable (perform_all (cancel 2 ∷ recover ∷ change_state 4 running [] ∷ []) db)
perform_all-IsTable_example =
    perform_all-IsTable (cancel 2 ∷ recover ∷ change_state 4 running [] ∷ []) db db-IsTable

-- The row of the running task as it is verified.
abbrev verified : Task
verified = record running_task { state = verifying }

transition_ok_example :
    (verified.id ≡ 2)
    × (verified.state ≡ verifying)
    × (get_task (transition 2 verifying [] db).1 2 ≡ some verified)
    × ((transition 2 verifying [] db).1
        ≡ record db { tasks = (transition 2 verifying [] db).1.tasks })
unfolding transition find_task can_transition set_fields moved
transition_ok_example = transition_ok 2 2 verifying [] db verified refl

-- The straight path.
abbrev straight : Run received completed
unfolding can_transition
straight =
    move {t = planning} refl (move {t = running} refl (move {t = verifying} refl (move refl here)))

completed_needs_verifying_example :
    Memᴰ running (visits straight) × Memᴰ verifying (visits straight)
completed_needs_verifying_example = completed_needs_verifying straight

ensure_plan_saved_example :
    (ss : List TaskStep) × ((ensure_plan 1 ("a" ∷ "b" ∷ []) db).0 ≡ ok ss)
    × (map (λ s. s.seq) ss ≡ numbers 1 ("a" ∷ "b" ∷ []))
    × (map (λ s. s.title) ss ≡ map (cut 200) ("a" ∷ "b" ∷ []))
    × All IsFresh ss
    × ((j : ℕ)
        → get_task (ensure_plan 1 ("a" ∷ "b" ∷ []) db).1 j
          ≡ (if 1 == j then some (record fresh_task { steps = ss }) else get_task db j))
    × ((others : List String)
        → (ensure_plan 1 others (ensure_plan 1 ("a" ∷ "b" ∷ []) db).1).0 ≡ ok ss)
unfolding find_task
ensure_plan_saved_example = ensure_plan_saved 1 "a" ("b" ∷ []) db fresh_task refl refl

abbrev hello : Message
hello = record {
  channel = "telegram";
  chat_id = "7";
  direction = inbound;
  text = "hello";
  external_id = some "m1";
  task_id = none;
}

seen_inbound-CameIn_example :
    let db' = record_message hello db in
    ((((m : Message) × Memᴰ m db'.messages × CameIn "telegram" "7" "m1" m)
        × (seen_inbound "telegram" "7" "m1" db' ≡ true))
      ⊎ (All (λ m. CameIn "telegram" "7" "m1" m → ⊥) db'.messages
          × (seen_inbound "telegram" "7" "m1" db' ≡ false)))
    × ((c' h' e' : String) (i : ℕ)
        → seen_inbound "telegram" "7" "m1" (link_message c' h' e' i db')
          ≡ seen_inbound "telegram" "7" "m1" db')
seen_inbound-CameIn_example = seen_inbound-CameIn (record_message hello db) "telegram" "7" "m1"
