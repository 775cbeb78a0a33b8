-- ===== src/Activities/Backup.antt =====
-- internal/activities/backup.go
use tenantflow.Prelude.{ℕ, Text, ⊤, [], ◌∷◌, none, codes, if◌then◌else◌}
use tenantflow.Model.{Backup, AuditEventType, number, text, literal}
use tenantflow.World.{Act, ◌>>=◌, ◌>>◌, pure, with_cleanup, ignoring, external}
use tenantflow.Cloud.Names.{tenant_database_name, temp_db_name}
use tenantflow.Cloud.Provider.{CloudProvider}
use tenantflow.Repository.{create_backup, mark_backup_completed, mark_backup_failed, set_completed}
use tenantflow.Activities.Common.{record_event}

-- The record that stands for a skipped backup.
abbrev pub skipped_backup : Text → Backup
skipped_backup id = record {
  id = 0;
  tenant_id = id;
  filename = codes "(skipped: database absent)";
  status = none;
  created_at = 0;
  completed_at = none;
}

-- `rec.Status = completed`: the row's completed_at is not copied back.
abbrev pub blessed : Backup → Backup
blessed b = record b { status = (set_completed 0 b).status }

module _ {S : Type 0} where
  unfoldable pub mark_tenant_backing_up : Text → Act S ⊤
  mark_tenant_backing_up id = record_event id AuditEventType.tenant_backing_up []

  unfoldable pub mark_tenant_backed_up : Text → ℕ → Text → Act S ⊤
  mark_tenant_backed_up id backup_id filename =
      record_event id AuditEventType.tenant_backup_created
        (("backupID", number backup_id) ∷ ("filename", text filename) ∷ [])

  unfoldable pub mark_tenant_backup_failed : Text → Act S ⊤
  mark_tenant_backup_failed id =
      record_event id AuditEventType.tenant_backup_failed (("reason", literal "saga failed") ∷ [])

module _ {S : Type 0} (p : CloudProvider S) where
  -- The checks between the row and its completion: pre-drop, create, restore, validate, drop. Every
  -- failure but the pre-drop's marks the row failed.
  unfoldable pub verify_backup : Text → Backup → Act S ⊤
  verify_backup temp_db row = do
    let failed = mark_backup_failed row.id
    let drop_temp = external (p.drop_database_named temp_db)
    external (p.drop_database_named temp_db)
    with_cleanup (external (p.create_database_named temp_db)) failed
    with_cleanup (external (p.restore_database_from_backup temp_db row.filename))
        (ignoring drop_temp >> failed)
    with_cleanup (external (p.validate_database temp_db)) (ignoring drop_temp >> failed)
    with_cleanup drop_temp failed
    with_cleanup (mark_backup_completed row.id) failed

  unfoldable pub take_backup : Text → Act S Backup
  unfolding verify_backup
  take_backup id = do
    backup_name ← external (p.snapshot_database id)
    row ← create_backup id backup_name
    verify_backup (temp_db_name id) row
    pure (blessed row)

  unfoldable pub backup_tenant_data : Text → Act S Backup
  unfolding take_backup
  backup_tenant_data id = do
    state ← external (p.inspect_database (tenant_database_name id))
    if state.exists then take_backup id else pure (skipped_backup id)
