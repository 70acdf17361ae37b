-- ===== src/Permissions.antt =====
-- The permission gate: core/permissions/engine.py, core/permissions/approvals.py and
-- core/permissions/audit.py.
pub mod Env
pub mod Audit
pub mod Engine
pub mod Approvals
pub mod Decide
