-- ===== src/Routing.antt =====
-- models/router: which AI provider serves a request, and what a failure does to the next ones.
pub mod Provider
pub mod Circuit
pub mod Registry
pub mod Router
