-- ===== src/Isolation/Activities.antt =====
-- The activities, run for one tenant, keep what their providers' methods keep.
use tenantflow.Prelude.{ℕ, Text, ⊤, List, Option, none, some}
use tenantflow.Model.{
  TenantStatus, TenantSpec, Backup, Quota, AuditEventType, Payload, IsolationMode, workflow_event,
}
use tenantflow.World.{Act, Error}
use tenantflow.Cloud.Names.{temp_db_name}
use tenantflow.Cloud.Provider.{CloudProvider, IdentityProvider}
use tenantflow.Activities.Common.{transition, record_event}
use tenantflow.Activities.Provision.{
  create_tenant_record, mark_tenant_active, mark_tenant_failed, provision_database,
  provision_tenant, drop_tenant_database,
}
use tenantflow.Activities.Deprovision.{
  mark_tenant_deleting, mark_tenant_deleted, restore_tenant_after_cancel, deprovision_tenant,
}
use tenantflow.Activities.Identity.{
  create_if_missing, provision_tenant_identity, delete_tenant_identity, delete_if_found,
  delete_tenant_identity_by_tenant,
}
use tenantflow.Activities.Upgrade.{verify_tenant_active, raise_quotas, rollback_quotas}
use tenantflow.Activities.Migrate.{
  migrate_data, drop_aux, promote, switch_traffic, raise_joined, drop_tenant_aux_database,
}
use tenantflow.Activities.Backup.{verify_backup, take_backup, backup_tenant_data}
use tenantflow.Activities.Restore.{pre_restore_snapshot, restore_data, restore_rollback}
use tenantflow.Activities.Reconcile.{
  resolve_tenant_spec, write_audit, probe_database, probe_backups, probe_tenant_actual_state,
  ensure_tenant_database, restore_latest, restore_if_any, restore_tenant_from_backup,
}
use tenantflow.Isolation.{Spares, Bystander, Apart, Spares-write_event, spare_rules}

module _ {S : Type 0} {P : S → Type 0} where
  pub Spares-record_event :
      (id : Text) (kind : AuditEventType) (payload : Payload)
      → Spares P (record_event id kind payload)
  unfolding record_event
  Spares-record_event id kind payload = Spares-write_event (workflow_event id kind payload)

  pub Spares-write_audit :
      (workflow_id id : Text) (kind : AuditEventType) (payload : Payload)
      → Spares P (write_audit workflow_id id kind payload)
  unfolding write_audit
  Spares-write_audit workflow_id id kind payload = Spares-write_event _

  Spares-transition :
      (id : Text) (to : TenantStatus) (from : List TenantStatus) → Spares P (transition id to from)
  unfolding transition
  Spares-transition id to from = search spare_rules

  pub Spares-create_tenant_record :
      (id workflow_id : Text) (mode : IsolationMode)
      → Spares P (create_tenant_record id workflow_id mode)
  unfolding create_tenant_record
  Spares-create_tenant_record id workflow_id mode = search spare_rules

  pub Spares-mark_tenant_active : (id : Text) → Spares P (mark_tenant_active id)
  unfolding mark_tenant_active
  Spares-mark_tenant_active id = search (spare_rules, Spares-record_event, Spares-transition)

  pub Spares-mark_tenant_failed : (id : Text) → Spares P (mark_tenant_failed id)
  unfolding mark_tenant_failed
  Spares-mark_tenant_failed id = search (spare_rules, Spares-record_event, Spares-transition)

  pub Spares-mark_tenant_deleting : (id : Text) → Spares P (mark_tenant_deleting id)
  unfolding mark_tenant_deleting
  Spares-mark_tenant_deleting id = search (spare_rules, Spares-record_event, Spares-transition)

  pub Spares-mark_tenant_deleted : (id : Text) → Spares P (mark_tenant_deleted id)
  unfolding mark_tenant_deleted
  Spares-mark_tenant_deleted id = search (spare_rules, Spares-record_event, Spares-transition)

  pub Spares-restore_tenant_after_cancel : (id : Text) → Spares P (restore_tenant_after_cancel id)
  unfolding restore_tenant_after_cancel
  Spares-restore_tenant_after_cancel id =
      search (spare_rules, Spares-record_event, Spares-transition)

  pub Spares-verify_tenant_active : (id : Text) → Spares P (verify_tenant_active id)
  unfolding verify_tenant_active
  Spares-verify_tenant_active id = search spare_rules

  pub Spares-resolve_tenant_spec : (id : Text) → Spares P (resolve_tenant_spec id)
  unfolding resolve_tenant_spec
  Spares-resolve_tenant_spec id = search spare_rules

  pub Spares-raise_quotas : (id : Text) (old : Quota) → Spares P (raise_quotas id old)
  unfolding raise_quotas
  Spares-raise_quotas id old = search spare_rules

  pub Spares-rollback_quotas : (id : Text) (old : Quota) → Spares P (rollback_quotas id old)
  unfolding rollback_quotas
  Spares-rollback_quotas id old = search (spare_rules, Spares-record_event)

  Spares-raise_joined : (e : Error) (m : Act S ⊤) → Spares P m → Spares P (raise_joined e m)
  unfolding raise_joined
  Spares-raise_joined e m s = search spare_rules

module _ {S : Type 0} {P : S → Type 0} {k : IdentityProvider S} (a : Apart P k) where
  Spares-create_if_missing :
      (id : Text) (found : Option Text) → Spares P (create_if_missing k id found)
  unfolding create_if_missing
  Spares-create_if_missing id none = search (spare_rules, a.user_created)
  Spares-create_if_missing id (some user_id) = search spare_rules

  pub Spares-provision_tenant_identity : (id : Text) → Spares P (provision_tenant_identity k id)
  unfolding provision_tenant_identity
  Spares-provision_tenant_identity id =
      search (spare_rules, a.found, a.role_given, Spares-create_if_missing)

  pub Spares-delete_tenant_identity : (user_id : Text) → Spares P (delete_tenant_identity k user_id)
  unfolding delete_tenant_identity
  Spares-delete_tenant_identity user_id = search (spare_rules, a.user_deleted)

  Spares-delete_if_found : (found : Option Text) → Spares P (delete_if_found k found)
  unfolding delete_if_found
  Spares-delete_if_found none = search spare_rules
  Spares-delete_if_found (some user_id) = Spares-delete_tenant_identity user_id

  pub Spares-delete_tenant_identity_by_tenant :
      (id : Text) → Spares P (delete_tenant_identity_by_tenant k id)
  unfolding delete_tenant_identity_by_tenant
  Spares-delete_tenant_identity_by_tenant id = search (spare_rules, a.found, Spares-delete_if_found)

module _ {S : Type 0} {P : S → Type 0} {p : CloudProvider S} {id : Text}
    (b : Bystander P p id) where
  pub Spares-provision_tenant : (mode : IsolationMode) → Spares P (provision_tenant p id mode)
  unfolding provision_tenant provision_database
  Spares-provision_tenant mode =
      search (spare_rules, Spares-record_event, b.inspected, b.owned, b.created) depth 9

  pub Spares-drop_tenant_database : Spares P (drop_tenant_database p id)
  unfolding drop_tenant_database
  Spares-drop_tenant_database = search (spare_rules, Spares-record_event, b.dropped, b.role_dropped)

  pub Spares-deprovision_tenant : Spares P (deprovision_tenant p id)
  unfolding deprovision_tenant
  Spares-deprovision_tenant = search (spare_rules, Spares-record_event, b.dropped, b.role_dropped)

  pub Spares-migrate_data : Spares P (migrate_data p id)
  unfolding migrate_data drop_aux
  Spares-migrate_data =
      search (spare_rules, b.dumped, b.new_dropped, b.new_created, b.new_restored, b.validated)
        depth 12

  pub Spares-switch_traffic : (file : Text) → Spares P (switch_traffic p id file)
  unfolding switch_traffic promote
  Spares-switch_traffic file =
      search (spare_rules, Spares-raise_joined, b.inspected, b.dropped, b.promoted, b.live_restored)
        depth 9

  pub Spares-drop_tenant_aux_database : Spares P (drop_tenant_aux_database p id)
  unfolding drop_tenant_aux_database drop_aux
  Spares-drop_tenant_aux_database = search (spare_rules, Spares-record_event, b.new_dropped)

  Spares-verify_backup : (row : Backup) → Spares P (verify_backup p (temp_db_name id) row)
  unfolding verify_backup
  Spares-verify_backup row =
      search (spare_rules, b.temp_dropped, b.temp_created, b.temp_restored, b.validated) depth 12

  pub Spares-backup_tenant_data : Spares P (backup_tenant_data p id)
  unfolding backup_tenant_data take_backup
  Spares-backup_tenant_data =
      search (spare_rules, Spares-verify_backup, b.inspected, b.dumped) depth 9

  pub Spares-pre_restore_snapshot : Spares P (pre_restore_snapshot p id)
  unfolding pre_restore_snapshot
  Spares-pre_restore_snapshot = search (spare_rules, b.dumped)

  pub Spares-restore_data : (n : ℕ) → Spares P (restore_data p id n)
  unfolding restore_data
  Spares-restore_data n = search (spare_rules, b.live_restored, b.validated) depth 9

  pub Spares-restore_rollback : (file : Text) → Spares P (restore_rollback p id file)
  unfolding restore_rollback
  Spares-restore_rollback file = search (spare_rules, Spares-record_event, b.live_restored)

  pub Spares-probe_tenant_actual_state :
      (spec : TenantSpec) → Spares P (probe_tenant_actual_state p spec)
  unfolding probe_tenant_actual_state probe_database probe_backups
  Spares-probe_tenant_actual_state spec = search (spare_rules, b.inspected, b.role_checked) depth 9

  pub Spares-ensure_tenant_database : Spares P (ensure_tenant_database p id)
  unfolding ensure_tenant_database
  Spares-ensure_tenant_database = search (spare_rules, b.inspected, b.owned, b.created) depth 9

  Spares-restore_latest :
      (workflow_id : Text) (latest : Backup) → Spares P (restore_latest p workflow_id id latest)
  unfolding restore_latest
  Spares-restore_latest workflow_id latest =
      search
        (
          spare_rules, Spares-write_audit, b.dropped, b.created, b.live_restored, b.owned,
          b.validated,
        )
        depth 12

  Spares-restore_if_any :
      (workflow_id : Text) (found : Option Backup)
      → Spares P (restore_if_any p workflow_id id found)
  unfolding restore_if_any
  Spares-restore_if_any workflow_id none = search spare_rules
  Spares-restore_if_any workflow_id (some latest) = Spares-restore_latest workflow_id latest

  pub Spares-restore_tenant_from_backup :
      (workflow_id : Text) → Spares P (restore_tenant_from_backup p workflow_id id)
  unfolding restore_tenant_from_backup
  Spares-restore_tenant_from_backup workflow_id = search (spare_rules, Spares-restore_if_any)
