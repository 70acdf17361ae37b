-- ===== src/Queue.antt =====
-- The task queue: core/queue/states.py, core/queue/store.py and core/queue/engine.py.
pub mod States
pub mod Store
pub mod Engine
