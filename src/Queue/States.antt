-- ===== src/Queue/States.antt =====
-- core/queue/states.py: the states of a task, their sets and the table of allowed transitions.
-- A frozenset of states is its membership test, and TRANSITIONS is a test on a pair of states.
pub mod Diagram
use nova_ai_agent.Prelude.{Bool, true, false}

pub data TaskState : Type 0 where
  received planning running waiting_approval verifying completed : TaskState
  paused failed cancelled waiting_desktop waiting_resource retrying : TaskState

unfoldable pub terminal : TaskState → Bool
terminal completed = true
terminal failed = true
terminal cancelled = true
terminal _ = false

-- What the dispatcher picks up.
unfoldable pub runnable : TaskState → Bool
runnable received = true
runnable retrying = true
runnable _ = false

-- Work is in progress.
unfoldable pub active : TaskState → Bool
active planning = true
active running = true
active verifying = true
active _ = false

-- Waiting on something outside the task.
unfoldable pub waiting : TaskState → Bool
waiting waiting_approval = true
waiting waiting_desktop = true
waiting waiting_resource = true
waiting paused = true
waiting _ = false

-- _ANY_EXIT
unfoldable pub any_exit : TaskState → Bool
any_exit failed = true
any_exit cancelled = true
any_exit _ = false

-- TRANSITIONS[src] as a membership test.
unfoldable pub transitions : TaskState → TaskState → Bool
unfolding any_exit
transitions received planning = true
transitions received paused = true
transitions received dst = any_exit dst
transitions planning running = true
transitions planning waiting_approval = true
transitions planning waiting_resource = true
transitions planning paused = true
transitions planning retrying = true
transitions planning dst = any_exit dst
transitions running verifying = true
transitions running waiting_approval = true
transitions running waiting_desktop = true
transitions running waiting_resource = true
transitions running paused = true
transitions running retrying = true
transitions running dst = any_exit dst
transitions waiting_approval running = true
transitions waiting_approval retrying = true
transitions waiting_approval paused = true
transitions waiting_approval dst = any_exit dst
transitions waiting_desktop running = true
transitions waiting_desktop retrying = true
transitions waiting_desktop paused = true
transitions waiting_desktop dst = any_exit dst
transitions waiting_resource running = true
transitions waiting_resource retrying = true
transitions waiting_resource paused = true
transitions waiting_resource dst = any_exit dst
transitions verifying completed = true
transitions verifying retrying = true
transitions verifying paused = true
transitions verifying dst = any_exit dst
transitions retrying running = true
transitions retrying paused = true
transitions retrying dst = any_exit dst
transitions paused retrying = true
transitions paused dst = any_exit dst
transitions completed dst = false
transitions failed dst = false
transitions cancelled dst = false

unfoldable pub can_transition : TaskState → TaskState → Bool
unfolding transitions
can_transition src dst = transitions src dst

-- The tests `state is TaskState.X` of the store and the engine.
abbrev pub is_received : TaskState → Bool
is_received received = true
is_received _ = false

abbrev pub is_paused : TaskState → Bool
is_paused paused = true
is_paused _ = false

abbrev pub is_running : TaskState → Bool
is_running running = true
is_running _ = false

abbrev pub is_waiting_approval : TaskState → Bool
is_waiting_approval waiting_approval = true
is_waiting_approval _ = false

abbrev pub is_retrying : TaskState → Bool
is_retrying retrying = true
is_retrying _ = false

abbrev pub is_failed : TaskState → Bool
is_failed failed = true
is_failed _ = false
