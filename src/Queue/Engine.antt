-- ===== src/Queue/Engine.antt =====
-- core/queue/engine.py, in four parts: the values that an execution works on, the context that an
-- executor sees, the execution of one task, and the dispatcher.
pub mod Work
pub mod Context
pub mod Require
pub mod Execute
