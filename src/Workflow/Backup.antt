-- ===== src/Workflow/Backup.antt =====
-- internal/workflow/backup.go
use tenantflow.Prelude.{Text, ⊤}
use tenantflow.Model.{Backup}
use tenantflow.World.{Act, Error, ◌>>=◌, ◌>>◌, raise, or_else}
use tenantflow.Cloud.Provider.{CloudProvider}
use tenantflow.Workflow.Temporal.{Temporal, joining}
use tenantflow.Activities.Backup.{
  mark_tenant_backing_up, backup_tenant_data, mark_tenant_backed_up, mark_tenant_backup_failed,
}

module _ {S : Type 0} (t : Temporal S) (p : CloudProvider S) where
  unfoldable pub compensate_backup : Text → {A : Type 0} → Error → Act S A
  compensate_backup id e = do e1 ← joining (t.execute ⊤ (mark_tenant_backup_failed id)) e; raise e1

  unfoldable pub backup_tenant_workflow : Text → Act S ⊤
  backup_tenant_workflow id = do
    or_else (t.execute ⊤ (mark_tenant_backing_up id)) (compensate_backup id)
    row ← or_else (t.execute Backup (backup_tenant_data p id)) (compensate_backup id)
    or_else (t.execute ⊤ (mark_tenant_backed_up id row.id row.filename)) (compensate_backup id)
