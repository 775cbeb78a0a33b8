-- ===== src/Lifecycle.antt =====
-- What the control plane may do to its tables, as a step relation. `Edge` is the life of a tenant's
-- status (the comment of internal/database/migrations/0001_init.sql and the guards of
-- UpdateTenantStatusFrom), `Step` one statement or provider call, `Reach` any number of them.
-- Lifecycle/Follows has a rule for each way to build a call, Repository, Activities,
-- Recovery, Workflows, Sagas, Reconciliation and Control show that the program follows the relation,
-- Status, Records, Integrity and Guarantees what that implies.
pub mod Steps
pub mod Follows
pub mod Repository
pub mod Activities
pub mod Recovery
pub mod Workflows
pub mod Sagas
pub mod Reconciliation
pub mod Control
pub mod Status
pub mod Records
pub mod Integrity
pub mod Guarantees
