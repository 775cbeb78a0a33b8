-- ===== src/Lifecycle/Guarantees.antt =====
-- What every run of every registered workflow guarantees, whatever fails and whatever the other
-- workflows do meanwhile.
use tenantflow.Prelude.{Text, ◌≡◌, List, ◌++◌, some}
use tenantflow.Model.{Tenant, AuditEvent, deleted}
use tenantflow.World.{World, find_tenant}
use tenantflow.Lifecycle.Steps.{Reach}
use tenantflow.Lifecycle.Control.{Outside, OutsideLaws, Launch, run_workflow, Follows-run_workflow}
use tenantflow.Lifecycle.Status.{status_of, ◌⟶*◌, Reach-⟶*, ⟶*-deleted, Fixed, Reach-Fixed}
use tenantflow.Lifecycle.Records.{IsConsistent, Reach-audit}
use tenantflow.Lifecycle.Integrity.{Reach-IsConsistent}

module _ {S : Type 0} (o : Outside S) (l : OutsideLaws S o) (launch : Launch) (w : World S) where
  reached : Reach w (run_workflow o launch w).1
  reached = (Follows-run_workflow o l launch).at w

  -- Under the laws of the outside, a run of any workflow, successful or not, moves the status of
  -- every tenant along the edges of the lifecycle only.
  pub status_along_edges : (id : Text) → status_of id w ⟶* status_of id (run_workflow o launch w).1
  status_along_edges id = Reach-⟶* id reached

  -- Under the laws of the outside, a tenant that is deleted before a run of any workflow is deleted
  -- after it: nothing revives it.
  pub deleted_is_final :
      (id : Text)
      → status_of id w ≡ some deleted
      → status_of id (run_workflow o launch w).1 ≡ some deleted
  deleted_is_final id e = ⟶*-deleted (status_along_edges id) e

  -- Under the laws of the outside, a run of any workflow only adds events to the audit trail, at its
  -- head: every event that was there stays, in its place.
  pub audit_append_only :
      (events : List AuditEvent) × ((run_workflow o launch w).1.audit ≡ events ++ w.audit)
  audit_append_only = Reach-audit reached

  -- Under the laws of the outside, a tenant that has a row before a run of any workflow has one after
  -- it, with the isolation mode, the workflow id and the creation date that it had.
  pub row_is_kept :
      (id : Text) (t : Tenant)
      → find_tenant id w.tenants ≡ some t
      → (v : Tenant) × (find_tenant id (run_workflow o launch w).1.tenants ≡ some v)
        × Fixed (some t) v
  row_is_kept id t e = Reach-Fixed id t reached e

  -- Under the laws of the outside, a run of any workflow keeps the tables consistent: no two tenants
  -- have one ID, each event, backup and plan belongs to a tenant with a row, no two backups have one
  -- file name, backup ids stay below the next one, and the plans fit their columns.
  pub tables-IsConsistent : IsConsistent w → IsConsistent (run_workflow o launch w).1
  tables-IsConsistent c = Reach-IsConsistent reached c
