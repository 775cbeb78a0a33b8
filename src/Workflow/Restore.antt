-- ===== src/Workflow/Restore.antt =====
-- internal/workflow/restore.go
use tenantflow.Prelude.{ℕ, Text, ⊤, Bool, true, false, [], if◌then◌else◌}
use tenantflow.World.{Act, Error, ◌>>=◌, ◌>>◌, pure, raise, or_else}
use tenantflow.Cloud.Provider.{CloudProvider}
use tenantflow.Workflow.Temporal.{Temporal, joining}
use tenantflow.Activities.Restore.{
  mark_tenant_restoring, pre_restore_snapshot, restore_data, mark_tenant_restored, restore_rollback,
  mark_tenant_restore_failed,
}

module _ {S : Type 0} (t : Temporal S) (p : CloudProvider S) where
  unfoldable pub compensate_restore : Text → Bool → Text → {A : Type 0} → Error → Act S A
  compensate_restore id snapshot_taken pre_backup_name e = do
    e1 ←
        (if snapshot_taken
          then joining (t.execute ⊤ (restore_rollback p id pre_backup_name)) e
          else pure e)
    e2 ← joining (t.execute ⊤ (mark_tenant_restore_failed id)) e1
    raise e2

  unfoldable pub restore_tenant_workflow : Text → ℕ → Act S ⊤
  restore_tenant_workflow id backup_id = do
    or_else (t.execute ⊤ (mark_tenant_restoring id)) (compensate_restore id false [])
    pre_backup_name ←
        or_else (t.execute Text (pre_restore_snapshot p id)) (compensate_restore id false [])
    or_else (t.execute ⊤ (restore_data p id backup_id)) (compensate_restore id true pre_backup_name)
    or_else (t.execute ⊤ (mark_tenant_restored id backup_id))
        (compensate_restore id true pre_backup_name)
