-- ===== src/Broker.antt =====
-- workers/privileged-broker/nova_broker: the process with administrator rights. Ops holds its
-- operations, Approvals its own check of the owner's approvals, Server the handling of a request.
pub mod Texts
pub mod Ops
pub mod Handlers
pub mod Approvals
pub mod Server
