-- ===== src/Workflow.antt =====
-- internal/workflow: one module for each workflow. A workflow calls activities one after another
-- through Temporal (Workflow/Temporal); its deferred function is the compensation of a failed call.
pub mod Temporal
pub mod Provision
pub mod Delete
pub mod Upgrade
pub mod Migrate
pub mod Backup
pub mod Restore
pub mod Reconcile
pub mod Sweep
