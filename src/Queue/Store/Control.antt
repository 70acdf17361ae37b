-- ===== src/Queue/Store/Control.antt =====
-- core/queue/store.py: cancel and pause requests, the pause of the whole queue, and the recovery
-- after a restart.
use nova_ai_agent.Prelude.{
  ℕ, String, Bool, true, false, Option, none, some, List, [], ◌∷◌, map, if◌then◌else◌, lookup,
  insert,
}
use nova_ai_agent.Exec.{ok, pure, ◌>>=◌, ◌>>◌}
use nova_ai_agent.Queue.States.{retrying, cancelled, terminal, active, is_paused}
use nova_ai_agent.Db.{pending, current, TaskStep, Task, Db, get_task, save_task}
use nova_ai_agent.Queue.Store.{Action, Field, error_code, queue_paused_key, list_in, transition}

pub data CancelOutcome : Type 0 where
  cancelled_now requested already_finished not_found : CancelOutcome

-- The first transaction of `request_cancel`.
unfoldable pub cancel_row : Option Task → Db → CancelOutcome × Db
unfolding terminal active
cancel_row none db = (not_found, db)
cancel_row (some t) db =
    if terminal t.state
    then (already_finished, db)
    else if active t.state
    then (requested, save_task (record t { cancel_requested = true }) db)
    else (cancelled_now, db)

abbrev pub cancelled_by_user : List Field
cancelled_by_user = error_code (some "CANCELLED_BY_USER") ∷ []

unfoldable pub cancel_after : CancelOutcome → ℕ → Action CancelOutcome
cancel_after cancelled_now task_id = do
  transition task_id cancelled cancelled_by_user
  pure cancelled_now
cancel_after outcome task_id = pure outcome

-- TaskStore.request_cancel
unfoldable pub request_cancel : ℕ → Action CancelOutcome
unfolding cancel_row cancel_after
request_cancel task_id db =
    let (outcome, db') = cancel_row (get_task db task_id) db in cancel_after outcome task_id db'

abbrev pub flags_of : Option Task → Bool × Bool
flags_of none = (true, false)
flags_of (some t) = (t.cancel_requested, t.pause_requested)

-- TaskStore.flags: (cancel_requested, pause_requested)
unfoldable pub flags : Db → ℕ → Bool × Bool
flags db task_id = flags_of (get_task db task_id)

-- bool(row and row.value)
abbrev pub is_set : Option Bool → Bool
is_set none = false
is_set (some b) = b

-- TaskStore.is_queue_paused
unfoldable pub is_queue_paused : Db → Bool
is_queue_paused db = is_set (lookup queue_paused_key db.settings)

-- TaskStore._set
unfoldable pub set_setting : String → Bool → Db → Db
set_setting key value db = record db { settings = insert key value db.settings }

abbrev pub request_pause : Task → Task
request_pause t = if active t.state then record t { pause_requested = true } else t

unfoldable pub ids : List Task → List ℕ
ids ts = map (λ t. t.id) ts

-- TaskStore.pause_queue
unfoldable pub pause_queue : Action (List ℕ)
unfolding set_setting
pause_queue db =
    let db' = set_setting queue_paused_key true db in
    (ok (ids (list_in active db')), record db' { tasks = map request_pause db'.tasks })

abbrev pub clear_pause : Task → Task
clear_pause t = if t.pause_requested then record t { pause_requested = false } else t

-- The loop over the paused tasks.
unfoldable pub resume_all : List ℕ → Action Unit
resume_all [] = pure tt
resume_all (i ∷ is) = do transition i retrying (error_code none ∷ []); resume_all is

-- TaskStore.resume_queue
unfoldable pub resume_queue : Action (List ℕ)
unfolding set_setting resume_all
resume_queue db =
    let db' = set_setting queue_paused_key false db in
    let db'' = record db' { tasks = map clear_pause db'.tasks } in
    let resumed = ids (list_in is_paused db'') in (do resume_all resumed; pure resumed) db''

abbrev pub interrupted_step : TaskStep → TaskStep
interrupted_step s = elim s.status [ current ↦ record s { status = pending } | _ ↦ s ]

-- The steps of one task that were CURRENT are PENDING again.
unfoldable pub reset_current : Option Task → Db → Db
reset_current none db = db
reset_current (some t) db = save_task (record t { steps = map interrupted_step t.steps }) db

abbrev pub interrupted_by_restart : List Field
interrupted_by_restart = error_code (some "INTERRUPTED_BY_RESTART") ∷ []

unfoldable pub recover_task : Task → Action Task
unfolding reset_current
recover_task t db =
    let db' = reset_current (get_task db t.id) db in
    if t.cancel_requested
    then transition t.id cancelled cancelled_by_user db'
    else transition t.id retrying interrupted_by_restart db'

unfoldable pub recover_all : List Task → Action (List Task)
unfolding recover_task
recover_all [] = pure []
recover_all (t ∷ ts) = do first ← recover_task t; rest ← recover_all ts; pure (first ∷ rest)

-- TaskStore.recover_after_restart
unfoldable pub recover_after_restart : Action (List Task)
unfolding recover_all list_in
recover_after_restart db = recover_all (list_in active db) db
