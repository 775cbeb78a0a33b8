-- ===== src/Activities/Migrate.antt =====
-- internal/activities/migrate.go
use tenantflow.Prelude.{Text, ⊤, [], ◌∷◌, if◌then◌else◌}
use tenantflow.Model.{AuditEventType, literal, compensation_event}
use tenantflow.World.{Act, Error, joined, ◌>>=◌, ◌>>◌, pure, raise, or_else, with_cleanup, external}
use tenantflow.Cloud.Names.{tenant_database_name, new_db_name}
use tenantflow.Cloud.Provider.{CloudProvider}
use tenantflow.Activities.Common.{record_event}

module _ {S : Type 0} where
  unfoldable pub mark_tenant_migrating : Text → Act S ⊤
  mark_tenant_migrating id = record_event id AuditEventType.tenant_migrating []

  unfoldable pub mark_tenant_migrated : Text → Act S ⊤
  mark_tenant_migrated id = record_event id AuditEventType.tenant_migrated []

  unfoldable pub mark_tenant_migrate_failed : Text → Act S ⊤
  mark_tenant_migrate_failed id =
      record_event id AuditEventType.tenant_migrate_failed (("reason", literal "saga failed") ∷ [])

  -- `otherErr := m; return errors.Join(err, otherErr)`, where a nil error joins nothing.
  unfoldable pub raise_joined : Error → Act S ⊤ → Act S ⊤
  raise_joined e m = or_else m (λ f. raise (joined e f)) >> raise e

module _ {S : Type 0} (p : CloudProvider S) where
  unfoldable pub drop_aux : Text → Act S ⊤
  drop_aux db_name = external (p.drop_database_named db_name)

  -- Snapshot, a fresh _new database, restore and check; the snapshot's file name.
  unfoldable pub migrate_data : Text → Act S Text
  unfolding drop_aux
  migrate_data id = do
    let new_db = new_db_name id
    backup_name ← external (p.snapshot_database id)
    external (p.drop_database_named new_db)
    external (p.create_database_named new_db)
    with_cleanup (external (p.restore_database_from_backup new_db backup_name)) (drop_aux new_db)
    with_cleanup (external (p.validate_database new_db)) (drop_aux new_db)
    pure backup_name

  -- The rename of _new to the live name; if it fails, the old data goes back from the snapshot.
  unfoldable pub promote : Text → Text → Act S ⊤
  promote id backup_name =
      or_else (external (p.rename_database (new_db_name id) (tenant_database_name id))) (λ e.
        raise_joined e
          (external (p.restore_database_from_backup (tenant_database_name id) backup_name)))

  unfoldable pub switch_traffic : Text → Text → Act S ⊤
  unfolding promote
  switch_traffic id backup_name = do
    new_state ← external (p.inspect_database (new_db_name id))
    if new_state.exists then (external (p.drop_database id) >> promote id backup_name) else pure tt

  unfoldable pub drop_tenant_aux_database : Text → Act S ⊤
  unfolding drop_aux
  drop_tenant_aux_database id = do
    drop_aux (new_db_name id)
    record_event id AuditEventType.tenant_migration_rolled_back
        (compensation_event "DropTenantAuxDatabase" "saga compensation")
