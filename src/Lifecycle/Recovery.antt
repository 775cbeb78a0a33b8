-- ===== src/Lifecycle/Recovery.antt =====
-- The activities of upgrade, migration, backup, restore and reconciliation follow the relation.
use tenantflow.Prelude.{ℕ, Text, ⊤, Option, none, some}
use tenantflow.Model.{Backup, Quota, TenantSpec, AuditEventType, Payload}
use tenantflow.World.{Act, Error}
use tenantflow.Cloud.Provider.{CloudProvider}
use tenantflow.Lifecycle.Follows.{Follows, call_rules}
use tenantflow.Lifecycle.Repository.{Follows-write_event}
use tenantflow.Lifecycle.Activities.{Follows-record_event, statement_rules}
use tenantflow.Activities.Upgrade.{verify_tenant_active, raise_quotas, rollback_quotas}
use tenantflow.Activities.Migrate.{
  raise_joined, migrate_data, promote, switch_traffic, drop_tenant_aux_database,
}
use tenantflow.Activities.Backup.{verify_backup, take_backup, backup_tenant_data}
use tenantflow.Activities.Restore.{restore_data, restore_rollback}
use tenantflow.Activities.Reconcile.{
  resolve_tenant_spec, write_audit, probe_database, probe_backups, probe_tenant_actual_state,
  ensure_tenant_database, restore_latest, restore_if_any, restore_tenant_from_backup,
}

module _ {S : Type 0} where
  pub Follows-verify_tenant_active : (id : Text) → Follows {S = S} (verify_tenant_active id)
  unfolding verify_tenant_active
  Follows-verify_tenant_active id = search statement_rules

  pub Follows-raise_quotas : (id : Text) (old : Quota) → Follows {S = S} (raise_quotas id old)
  unfolding raise_quotas
  Follows-raise_quotas id old = search statement_rules

  pub Follows-rollback_quotas : (id : Text) (old : Quota) → Follows {S = S} (rollback_quotas id old)
  unfolding rollback_quotas
  Follows-rollback_quotas id old = search (statement_rules, Follows-record_event)

  Follows-raise_joined : (e : Error) (m : Act S ⊤) → Follows m → Follows (raise_joined e m)
  unfolding raise_joined
  Follows-raise_joined e m f = search call_rules

  pub Follows-resolve_tenant_spec : (id : Text) → Follows {S = S} (resolve_tenant_spec id)
  unfolding resolve_tenant_spec
  Follows-resolve_tenant_spec id = search statement_rules

  pub Follows-write_audit :
      (workflow_id id : Text) (kind : AuditEventType) (payload : Payload)
      → Follows {S = S} (write_audit workflow_id id kind payload)
  unfolding write_audit
  Follows-write_audit workflow_id id kind payload = search Follows-write_event

module _ {S : Type 0} (p : CloudProvider S) where
  pub Follows-migrate_data : (id : Text) → Follows (migrate_data p id)
  unfolding migrate_data
  Follows-migrate_data id = search call_rules depth 12

  Follows-promote : (id file : Text) → Follows (promote p id file)
  unfolding promote
  Follows-promote id file = search (call_rules, Follows-raise_joined)

  pub Follows-switch_traffic : (id file : Text) → Follows (switch_traffic p id file)
  unfolding switch_traffic
  Follows-switch_traffic id file = search (call_rules, Follows-promote) depth 8

  pub Follows-drop_tenant_aux_database : (id : Text) → Follows (drop_tenant_aux_database p id)
  unfolding drop_tenant_aux_database
  Follows-drop_tenant_aux_database id = search (call_rules, Follows-record_event)

  Follows-verify_backup : (temp : Text) (row : Backup) → Follows (verify_backup p temp row)
  unfolding verify_backup
  Follows-verify_backup temp row = search statement_rules depth 12

  Follows-take_backup : (id : Text) → Follows (take_backup p id)
  unfolding take_backup
  Follows-take_backup id = search (statement_rules, Follows-verify_backup) depth 8

  pub Follows-backup_tenant_data : (id : Text) → Follows (backup_tenant_data p id)
  unfolding backup_tenant_data
  Follows-backup_tenant_data id = search (call_rules, Follows-take_backup)

  pub Follows-restore_data : (id : Text) (n : ℕ) → Follows (restore_data p id n)
  unfolding restore_data
  Follows-restore_data id n = search statement_rules depth 8

  pub Follows-restore_rollback : (id file : Text) → Follows (restore_rollback p id file)
  unfolding restore_rollback
  Follows-restore_rollback id file = search (call_rules, Follows-record_event)

  Follows-probe_database : (spec : TenantSpec) → Follows (probe_database p spec)
  unfolding probe_database
  Follows-probe_database spec = search call_rules depth 8

  Follows-probe_backups : (spec : TenantSpec) → Follows (probe_backups p spec)
  unfolding probe_backups
  Follows-probe_backups spec = search statement_rules depth 8

  pub Follows-probe_tenant_actual_state :
      (spec : TenantSpec) → Follows (probe_tenant_actual_state p spec)
  unfolding probe_tenant_actual_state
  Follows-probe_tenant_actual_state spec =
      search (call_rules, Follows-probe_database, Follows-probe_backups)

  pub Follows-ensure_tenant_database : (id : Text) → Follows (ensure_tenant_database p id)
  unfolding ensure_tenant_database
  Follows-ensure_tenant_database id = search call_rules

  Follows-restore_latest :
      (workflow_id id : Text) (b : Backup) → Follows (restore_latest p workflow_id id b)
  unfolding restore_latest
  Follows-restore_latest workflow_id id b = search (call_rules, Follows-write_audit) depth 8

  Follows-restore_if_any :
      (workflow_id id : Text) (o : Option Backup) → Follows (restore_if_any p workflow_id id o)
  unfolding restore_if_any
  Follows-restore_if_any workflow_id id none = search call_rules
  Follows-restore_if_any workflow_id id (some b) = search Follows-restore_latest

  pub Follows-restore_tenant_from_backup :
      (workflow_id id : Text) → Follows (restore_tenant_from_backup p workflow_id id)
  unfolding restore_tenant_from_backup
  Follows-restore_tenant_from_backup workflow_id id =
      search (statement_rules, Follows-restore_if_any)
