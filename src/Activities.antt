-- ===== src/Activities.antt =====
-- internal/activities: one module for each file, with what the activities share here. An activity is
-- a call on the world; a log line is not modelled, and neither are the Prometheus counters.
pub mod Common
pub mod Provision
pub mod Deprovision
pub mod Identity
pub mod Upgrade
pub mod Bounds
pub mod Migrate
pub mod Backup
pub mod Restore
pub mod Reconcile
