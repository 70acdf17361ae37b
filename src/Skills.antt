-- ===== src/Skills.antt =====
-- core/skills: the ledger of side effects, the contract of tools with the registry that finds them,
-- and the gate that every call of a tool passes.
pub mod Ledger
pub mod Api
pub mod Loading
pub mod Quiet
pub mod Prepare
pub mod Runner
