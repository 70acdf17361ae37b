-- ===== src/Queue/Store/Invariant/Kept.antt =====
-- The invariant of the table through the requests of core/queue/store.py, and through any sequence
-- of them.
use nova_ai_agent.Prelude.{
  ℕ, ◌≡◌, refl, String, true, false, Option, none, some, List, [], ◌∷◌, map, arith, Bool-cases, inl,
  inr,
}
use nova_ai_agent.Json.{Fields}
use nova_ai_agent.Exec.{pure, ◌>>=◌}
use nova_ai_agent.Exec.Keeps.{Keeps, Keeps-bind}
use nova_ai_agent.Queue.States.{TaskState, retrying, cancelled, terminal, active, is_paused}
use nova_ai_agent.Db.{Task, Db, get_task}
use nova_ai_agent.Db.Rows.{find_task-All}
use nova_ai_agent.Queue.Store.{Field, error_code, queue_paused_key, create, list_in, transition}
use nova_ai_agent.Queue.Store.Steps.{
  ensure_plan, start_step, complete_step, save_partial, reset_step, fail_step,
}
use nova_ai_agent.Queue.Store.Control.{
  CancelOutcome, cancelled_now, cancel_row, cancel_after, cancelled_by_user, request_cancel,
  set_setting, request_pause, ids, pause_queue, clear_pause, resume_all, resume_queue,
  reset_current, recover_task, recover_all, recover_after_restart, interrupted_by_restart,
}
use nova_ai_agent.Queue.Store.Invariant.{
  IsRow, IsTable, save_task-IsTable, transition-IsTable, map-IsTable, create-IsTable, steps-IsRow,
  update_step-IsTable, ensure_plan-IsTable,
}

cancel_requested-IsRow :
    (t : Task) → terminal t.state ≡ false → IsRow t → IsRow (record t { cancel_requested = true })
unfolding terminal
cancel_requested-IsRow t n h = ground arith

cancel_row-IsTable :
    (i : ℕ) (o : Option Task) (s : Db) → get_task s i ≡ o → IsTable s → IsTable (cancel_row o s).1
unfolding cancel_row
cancel_row-IsTable i none s e h = h
cancel_row-IsTable i (some t) s e h = elim (Bool-cases (terminal t.state)) [
  | inl c ↦ rw c h
  | inr c ↦ rw c (elim (Bool-cases (active t.state)) [
    | inl a ↦ rw a (
        save_task-IsTable (record t { cancel_requested = true }) s
          (cancel_requested-IsRow t c (find_task-All IsRow i s.tasks t h.rows e)) h)
    | inr a ↦ rw a h
  ])
]

cancel_after-IsTable : (o : CancelOutcome) (i : ℕ) → Keeps IsTable (cancel_after o i)
unfolding cancel_after
cancel_after-IsTable cancelled_now i =
    Keeps-bind (transition i cancelled cancelled_by_user) (λ _. pure cancelled_now)
      (transition-IsTable i cancelled cancelled_by_user) (λ _. record { at = λ s h. h })
cancel_after-IsTable _ i = record { at = λ s h. h }

request_cancel-IsTable : (i : ℕ) → Keeps IsTable (request_cancel i)
unfolding request_cancel
request_cancel-IsTable i = record {
  at = λ s h.
      (cancel_after-IsTable (cancel_row (get_task s i) s).0 i).at (cancel_row (get_task s i) s).1
        (cancel_row-IsTable i (get_task s i) s refl h);
}

request_pause-IsRow : (t : Task) → IsRow t → IsRow (request_pause t)
unfolding terminal active
request_pause-IsRow t h = ground arith

request_pause-id : (t : Task) → (request_pause t).id ≡ t.id
request_pause-id t = ground arith

clear_pause-IsRow : (t : Task) → IsRow t → IsRow (clear_pause t)
unfolding terminal
clear_pause-IsRow t h = ground arith

clear_pause-id : (t : Task) → (clear_pause t).id ≡ t.id
clear_pause-id t = ground arith

pause_queue-IsTable : Keeps IsTable pause_queue
unfolding pause_queue
pause_queue-IsTable = record {
  at = λ s h.
      map-IsTable request_pause (set_setting queue_paused_key true s) request_pause-IsRow
        request_pause-id (record { rows = h.rows; ordered = h.ordered });
}

resume_all-IsTable : (is : List ℕ) → Keeps IsTable (resume_all is)
unfolding resume_all
resume_all-IsTable [] = record { at = λ s h. h }
resume_all-IsTable (i ∷ is) =
    Keeps-bind (transition i retrying (error_code none ∷ [])) (λ _. resume_all is)
      (transition-IsTable i retrying (error_code none ∷ [])) (λ _. resume_all-IsTable is)

resume_queue-IsTable : Keeps IsTable resume_queue
unfolding resume_queue
resume_queue-IsTable = record {
  at = λ s h.
      let db' = set_setting queue_paused_key false s in
      let db'' = record db' { tasks = map clear_pause db'.tasks } in
      let cleared =
        map-IsTable clear_pause db' clear_pause-IsRow clear_pause-id
          (record { rows = h.rows; ordered = h.ordered }) in
      let resumed = ids (list_in is_paused db'') in
      (Keeps-bind (resume_all resumed) (λ _. pure resumed) (resume_all-IsTable resumed)
          (λ _. record { at = λ s h. h })).at
        db'' cleared;
}

reset_current-IsTable :
    (i : ℕ) (o : Option Task) (s : Db) → get_task s i ≡ o → IsTable s → IsTable (reset_current o s)
unfolding reset_current
reset_current-IsTable i none s e h = h
reset_current-IsTable i (some t) s e h =
    save_task-IsTable _ s (steps-IsRow t _ (find_task-All IsRow i s.tasks t h.rows e)) h

recover_task-IsTable : (t : Task) → Keeps IsTable (recover_task t)
unfolding recover_task
recover_task-IsTable t = record {
  at = λ s h.
      let reset = reset_current-IsTable t.id (get_task s t.id) s refl h in
      elim (Bool-cases t.cancel_requested) [
        | inl c ↦ rw c ((transition-IsTable t.id cancelled cancelled_by_user).at _ reset)
        | inr c ↦ rw c ((transition-IsTable t.id retrying interrupted_by_restart).at _ reset)
      ];
}

recover_all-IsTable : (ts : List Task) → Keeps IsTable (recover_all ts)
unfolding recover_all
recover_all-IsTable [] = record { at = λ s h. h }
recover_all-IsTable (t ∷ ts) =
    Keeps-bind (recover_task t) (λ first. do rest ← recover_all ts; pure (first ∷ rest))
      (recover_task-IsTable t)
      (λ first.
        Keeps-bind (recover_all ts) (λ rest. pure (first ∷ rest)) (recover_all-IsTable ts)
          (λ rest. record { at = λ s h. h }))

recover_after_restart-IsTable : Keeps IsTable recover_after_restart
unfolding recover_after_restart
recover_after_restart-IsTable = record {
  at = λ s h. (recover_all-IsTable (list_in active s)).at s h;
}

-- One call of the store that may change the table of tasks, or time that passes.
pub data Call : Type 0 where
  create_task : (title request_text task_type channel chat_id : String) (priority : ℕ) → Call
  change_state : ℕ → TaskState → List Field → Call
  cancel : ℕ → Call
  plan : ℕ → List String → Call
  step_started step_reset : (task_id seq : ℕ) → Call
  step_completed : (task_id seq : ℕ) → Option Fields → Call
  step_partial : (task_id seq : ℕ) → Fields → Call
  step_failed : (task_id seq : ℕ) → String → Call
  pause_all resume_paused recover : Call
  time_passes : ℕ → Call

unfoldable pub perform : Call → Db → Db
perform (create_task title request_text task_type channel chat_id priority) db =
    (create title request_text task_type channel chat_id priority db).1
perform (change_state i dst fs) db = (transition i dst fs db).1
perform (cancel i) db = (request_cancel i db).1
perform (plan i titles) db = (ensure_plan i titles db).1
perform (step_started i q) db = (start_step i q db).1
perform (step_reset i q) db = (reset_step i q db).1
perform (step_completed i q c) db = (complete_step i q c db).1
perform (step_partial i q p) db = (save_partial i q p db).1
perform (step_failed i q e) db = (fail_step i q e db).1
perform pause_all db = (pause_queue db).1
perform resume_paused db = (resume_queue db).1
perform recover db = (recover_after_restart db).1
perform (time_passes n) db = record db { clock = n }

perform-IsTable : (c : Call) (db : Db) → IsTable db → IsTable (perform c db)
unfolding perform start_step reset_step complete_step save_partial fail_step
perform-IsTable (create_task title request_text task_type channel chat_id priority) db h =
    (create-IsTable title request_text task_type channel chat_id priority).at db h
perform-IsTable (change_state i dst fs) db h = (transition-IsTable i dst fs).at db h
perform-IsTable (cancel i) db h = (request_cancel-IsTable i).at db h
perform-IsTable (plan i titles) db h = (ensure_plan-IsTable i titles).at db h
perform-IsTable (step_started i q) db h = (update_step-IsTable i q _).at db h
perform-IsTable (step_reset i q) db h = (update_step-IsTable i q _).at db h
perform-IsTable (step_completed i q c) db h = (update_step-IsTable i q _).at db h
perform-IsTable (step_partial i q p) db h = (update_step-IsTable i q _).at db h
perform-IsTable (step_failed i q e) db h = (update_step-IsTable i q _).at db h
perform-IsTable pause_all db h = pause_queue-IsTable.at db h
perform-IsTable resume_paused db h = resume_queue-IsTable.at db h
perform-IsTable recover db h = recover_after_restart-IsTable.at db h
perform-IsTable (time_passes n) db h = record { rows = h.rows; ordered = h.ordered }

unfoldable pub perform_all : List Call → Db → Db
perform_all [] db = db
perform_all (c ∷ cs) db = perform_all cs (perform c db)

-- Whatever sequence of calls of the store is made, from a table that is well formed: ids grow along
-- the table and stay below the next id, and in every row finished_at is set exactly in a terminal
-- state, paused_from is set exactly in PAUSED, a running task has started, a terminal task has no
-- request pending and a paused one no pause request.
pub perform_all-IsTable : (cs : List Call) (db : Db) → IsTable db → IsTable (perform_all cs db)
unfolding perform_all
perform_all-IsTable [] db h = h
perform_all-IsTable (c ∷ cs) db h = perform_all-IsTable cs (perform c db) (perform-IsTable c db h)
