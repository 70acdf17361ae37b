-- ===== src/Tests.antt =====
-- The theorems at concrete inputs, on a small database, a configuration and a router.
mod Sample
mod Store
mod Gates
mod Dispatch
mod Providers
mod Jobs
mod Skilled
mod Brokered
mod Notices
mod Updating
