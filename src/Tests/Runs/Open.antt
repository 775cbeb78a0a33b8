-- ===== src/Tests/Runs/Open.antt =====
-- A run of a workflow with everything open that it computes with.
use tenantflow.Prelude.{⊤, Bool, true, false, Option, is_some}
use tenantflow.Model.{TenantStatus, any_status}
use tenantflow.World.{
  World, Result, ok, err, find_tenant, put_tenant, find_quota, put_quota, statement,
}
use tenantflow.Repository.{
  create_tenant, get_tenant, list_tenants, update_tenant_status_from, write_event, create_backup,
  get_backup, list_backups, mark_backup_completed, mark_backup_failed, set_quota, get_quota,
  newest_first, find_backup, update_backup, backups_of,
}
use tenantflow.Cloud.Names.{
  tenant_database_name, new_db_name, temp_db_name, backup_name, has_suffix, trim_suffix, role_of,
}
use tenantflow.Activities.Common.{
  transition, record_event, conflict_error, is_conflict, is_not_found,
}
use tenantflow.Activities.Provision.{
  create_tenant_record, mark_tenant_active, mark_tenant_failed, provision_database,
  provision_tenant, drop_tenant_database,
}
use tenantflow.Activities.Deprovision.{
  mark_tenant_deleting, mark_tenant_deleted, restore_tenant_after_cancel, mark_tenant_delete_failed,
  deprovision_tenant,
}
use tenantflow.Activities.Identity.{
  tenant_identity_username, create_if_missing, provision_tenant_identity, delete_tenant_identity,
  delete_if_found, delete_tenant_identity_by_tenant,
}
use tenantflow.Activities.Upgrade.{
  verify_tenant_active, raise_quotas, enable_features, update_billing, rollback_quotas,
  mark_tenant_upgrading, mark_tenant_upgraded, mark_tenant_upgrade_failed,
}
use tenantflow.Activities.Migrate.{
  mark_tenant_migrating, mark_tenant_migrated, mark_tenant_migrate_failed, raise_joined, drop_aux,
  migrate_data, promote, switch_traffic, drop_tenant_aux_database,
}
use tenantflow.Activities.Backup.{
  mark_tenant_backing_up, mark_tenant_backed_up, mark_tenant_backup_failed, verify_backup,
  take_backup, backup_tenant_data,
}
use tenantflow.Activities.Restore.{
  mark_tenant_restoring, mark_tenant_restored, mark_tenant_restore_failed, pre_restore_snapshot,
  restore_data, restore_rollback,
}
use tenantflow.Activities.Reconcile.{
  is_no_verified_backup, lookup_error, backup_completed, count_completed, first_completed,
  resolve_tenant_spec, write_audit, record_reconcile_drift, mark_reconcile_converged,
  mark_reconcile_skipped, mark_reconcile_failed, mark_reconcile_unrecoverable, probe_database,
  probe_backups, probe_tenant_actual_state, ensure_tenant_database, restore_latest, restore_if_any,
  restore_tenant_from_backup,
}
use tenantflow.Activities.Reconcile.Drift.{detect_drifts, contains_drift, needs_database_repair}
use tenantflow.Workflow.Provision.{compensate_provision, provision_tenant_workflow}
use tenantflow.Workflow.Delete.{
  compensate_delete, pre_delete_backup, teardown, grace, fresh_delete, delete_tenant_workflow,
}
use tenantflow.Workflow.Upgrade.{compensate_upgrade, upgrade_tenant_workflow}
use tenantflow.Workflow.Migrate.{compensate_migrate, migrate_tenant_workflow}
use tenantflow.Workflow.Backup.{compensate_backup, backup_tenant_workflow}
use tenantflow.Workflow.Restore.{compensate_restore, restore_tenant_workflow}
use tenantflow.Workflow.Reconcile.{
  restore_or_escalate, repair, conclude, repair_and_probe, reconcile_active,
  reconcile_tenant_workflow,
}
use tenantflow.Lifecycle.Control.{Launch, run_workflow}
use tenantflow.Lifecycle.Status.{status_of}
use tenantflow.Fixture.Server.{Server, find_db}
use tenantflow.Fixture.Start.{acme, outside}
use tenantflow.Prelude.{text_eq}

abbrev pub succeeded : Result ⊤ → Bool
succeeded (ok _) = true
succeeded (err _) = false

-- Did it succeed, what is the status of acme, and is its database there?
abbrev pub summary : Result ⊤ × World Server → Bool × Option TenantStatus × Bool
summary (r, w) =
    (succeeded r, status_of acme w, is_some (find_db (tenant_database_name acme) w.ext.databases))

-- A run; `cancelled` is how the grace period ends.
unfoldable pub run : Bool → Launch → World Server → Result ⊤ × World Server
unfolding run_workflow create_tenant get_tenant list_tenants update_tenant_status_from write_event
    create_backup get_backup list_backups mark_backup_completed mark_backup_failed set_quota
    get_quota newest_first find_backup update_backup backups_of tenant_database_name new_db_name
    temp_db_name backup_name has_suffix trim_suffix role_of transition record_event conflict_error
    is_conflict is_not_found create_tenant_record mark_tenant_active mark_tenant_failed
    provision_database provision_tenant drop_tenant_database mark_tenant_deleting
    mark_tenant_deleted restore_tenant_after_cancel mark_tenant_delete_failed deprovision_tenant
    tenant_identity_username create_if_missing provision_tenant_identity delete_tenant_identity
    delete_if_found delete_tenant_identity_by_tenant verify_tenant_active raise_quotas
    enable_features update_billing rollback_quotas mark_tenant_upgrading mark_tenant_upgraded
    mark_tenant_upgrade_failed mark_tenant_migrating mark_tenant_migrated mark_tenant_migrate_failed
    raise_joined drop_aux migrate_data promote switch_traffic drop_tenant_aux_database
    mark_tenant_backing_up mark_tenant_backed_up mark_tenant_backup_failed verify_backup take_backup
    backup_tenant_data mark_tenant_restoring mark_tenant_restored mark_tenant_restore_failed
    pre_restore_snapshot restore_data restore_rollback is_no_verified_backup lookup_error
    backup_completed count_completed first_completed resolve_tenant_spec write_audit
    record_reconcile_drift mark_reconcile_converged mark_reconcile_skipped mark_reconcile_failed
    mark_reconcile_unrecoverable probe_database probe_backups probe_tenant_actual_state
    ensure_tenant_database restore_latest restore_if_any restore_tenant_from_backup detect_drifts
    contains_drift needs_database_repair compensate_provision provision_tenant_workflow
    compensate_delete pre_delete_backup teardown grace fresh_delete delete_tenant_workflow
    compensate_upgrade upgrade_tenant_workflow compensate_migrate migrate_tenant_workflow
    compensate_backup backup_tenant_workflow compensate_restore restore_tenant_workflow
    restore_or_escalate repair conclude repair_and_probe reconcile_active reconcile_tenant_workflow
    text_eq find_tenant put_tenant find_quota put_quota statement any_status
run cancelled launch w = run_workflow (outside cancelled) launch w
