-- ===== src/Activities/Restore.antt =====
-- internal/activities/restore.go. tenantDBName is the rule of TenantDatabaseName.
use tenantflow.Prelude.{ℕ, Text, ⊤, [], ◌∷◌, text_eq, if◌then◌else◌}
use tenantflow.Model.{AuditEventType, number, literal, compensation_event}
use tenantflow.World.{Act, other, ◌>>=◌, ◌>>◌, pure, raise, external}
use tenantflow.Cloud.Names.{tenant_database_name}
use tenantflow.Cloud.Provider.{CloudProvider}
use tenantflow.Repository.{get_backup}
use tenantflow.Activities.Common.{record_event}

module _ {S : Type 0} where
  unfoldable pub mark_tenant_restoring : Text → Act S ⊤
  mark_tenant_restoring id = record_event id AuditEventType.tenant_restoring []

  unfoldable pub mark_tenant_restored : Text → ℕ → Act S ⊤
  mark_tenant_restored id backup_id =
      record_event id AuditEventType.tenant_restored (("backupID", number backup_id) ∷ [])

  unfoldable pub mark_tenant_restore_failed : Text → Act S ⊤
  mark_tenant_restore_failed id =
      record_event id AuditEventType.tenant_restore_failed (("reason", literal "saga failed") ∷ [])

module _ {S : Type 0} (p : CloudProvider S) where
  unfoldable pub pre_restore_snapshot : Text → Act S Text
  pre_restore_snapshot id = external (p.snapshot_database id)

  unfoldable pub restore_data : Text → ℕ → Act S ⊤
  restore_data id backup_id = do
    backup ← get_backup backup_id
    if text_eq backup.tenant_id id then pure tt else raise other
    external (p.restore_database_from_backup (tenant_database_name id) backup.filename)
    external (p.validate_database (tenant_database_name id))

  unfoldable pub restore_rollback : Text → Text → Act S ⊤
  restore_rollback id pre_backup_name = do
    external (p.restore_database_from_backup (tenant_database_name id) pre_backup_name)
    record_event id AuditEventType.tenant_restore_rolled_back
        (compensation_event "RestoreRollback" "saga compensation")
