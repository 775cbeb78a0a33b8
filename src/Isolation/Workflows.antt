-- ===== src/Isolation/Workflows.antt =====
-- The workflows, run for one tenant, keep what their providers' methods and the others keep.
use tenantflow.Prelude.{ℕ, Text, Bool, List}
use tenantflow.Model.{Quota, IsolationMode, TenantSpec, DriftKind}
use tenantflow.World.{World, Act, Error}
use tenantflow.Cloud.Provider.{CloudProvider, IdentityProvider}
use tenantflow.Workflow.Temporal.{Temporal, TemporalLaws}
use tenantflow.Workflow.Provision.{compensate_provision, provision_tenant_workflow}
use tenantflow.Workflow.Upgrade.{compensate_upgrade, upgrade_tenant_workflow}
use tenantflow.Workflow.Migrate.{compensate_migrate, migrate_tenant_workflow}
use tenantflow.Workflow.Backup.{compensate_backup, backup_tenant_workflow}
use tenantflow.Workflow.Restore.{compensate_restore, restore_tenant_workflow}
use tenantflow.Workflow.Reconcile.{
  restore_or_escalate, repair, conclude, repair_and_probe, reconcile_active,
  reconcile_tenant_workflow,
}
use tenantflow.Activities.Upgrade.{
  enable_features, update_billing, mark_tenant_upgrading, mark_tenant_upgraded,
  mark_tenant_upgrade_failed,
}
use tenantflow.Activities.Migrate.{
  mark_tenant_migrating, mark_tenant_migrated, mark_tenant_migrate_failed,
}
use tenantflow.Activities.Backup.{
  mark_tenant_backing_up, mark_tenant_backed_up, mark_tenant_backup_failed,
}
use tenantflow.Activities.Restore.{
  mark_tenant_restoring, mark_tenant_restored, mark_tenant_restore_failed,
}
use tenantflow.Activities.Reconcile.{
  record_reconcile_drift, mark_reconcile_converged, mark_reconcile_skipped, mark_reconcile_failed,
  mark_reconcile_unrecoverable,
}
use tenantflow.Isolation.{Spares, Bystander, Apart, Spares-execute, spare_rules}
use tenantflow.Isolation.Activities.{
  Spares-record_event, Spares-write_audit, Spares-create_tenant_record, Spares-mark_tenant_active,
  Spares-mark_tenant_failed, Spares-verify_tenant_active, Spares-resolve_tenant_spec,
  Spares-raise_quotas, Spares-rollback_quotas, Spares-provision_tenant_identity,
  Spares-delete_tenant_identity, Spares-provision_tenant, Spares-drop_tenant_database,
  Spares-migrate_data, Spares-switch_traffic, Spares-drop_tenant_aux_database,
  Spares-backup_tenant_data, Spares-pre_restore_snapshot, Spares-restore_data,
  Spares-restore_rollback, Spares-probe_tenant_actual_state, Spares-ensure_tenant_database,
  Spares-restore_tenant_from_backup,
}

module _ {S : Type 0} {P : S → Type 0} {rely : World S → World S → Type 0} {t : Temporal S}
    {p : CloudProvider S} {k : IdentityProvider S} {id : Text} (laws : TemporalLaws S rely t)
    (others : (w w' : World S) → rely w w' → P w.ext → P w'.ext) (b : Bystander P p id)
    (a : Apart P k) where
  run : {A : Type 0} (m : Act S A) → Spares P m → Spares P (t.execute A m)
  run m s = Spares-execute laws others m s

  Spares-compensate_provision :
      (user_id : Text) (created : Bool) {A : Type 0} (e : Error)
      → Spares P (compensate_provision t p k id user_id created {A = A} e)
  unfolding compensate_provision
  Spares-compensate_provision user_id created e =
      search
        (
          spare_rules, run, Spares-mark_tenant_failed, Spares-delete_tenant_identity,
          Spares-drop_tenant_database,
        )
        depth 9

  pub Spares-provision_tenant_workflow :
      (workflow_id : Text) (mode : IsolationMode)
      → Spares P (provision_tenant_workflow t p k workflow_id id mode)
  unfolding provision_tenant_workflow
  Spares-provision_tenant_workflow workflow_id mode =
      search
        (
          spare_rules, run, Spares-create_tenant_record, Spares-mark_tenant_active,
          Spares-provision_tenant, Spares-provision_tenant_identity, Spares-compensate_provision,
        )
        depth 9

  Spares-compensate_upgrade :
      (old : Quota) (was_raised : Bool) {A : Type 0} (e : Error)
      → Spares P (compensate_upgrade t id old was_raised {A = A} e)
  unfolding compensate_upgrade mark_tenant_upgrade_failed
  Spares-compensate_upgrade old was_raised e =
      search (spare_rules, run, Spares-record_event, Spares-rollback_quotas) depth 9

  pub Spares-upgrade_tenant_workflow : Spares P (upgrade_tenant_workflow t id)
  unfolding upgrade_tenant_workflow enable_features update_billing mark_tenant_upgrading
      mark_tenant_upgraded
  Spares-upgrade_tenant_workflow =
      search
        (
          spare_rules, run, Spares-record_event, Spares-verify_tenant_active, Spares-raise_quotas,
          Spares-compensate_upgrade,
        )
        depth 12

  Spares-compensate_migrate :
      (switched : Bool) {A : Type 0} (e : Error)
      → Spares P (compensate_migrate t p id switched {A = A} e)
  unfolding compensate_migrate mark_tenant_migrate_failed
  Spares-compensate_migrate switched e =
      search (spare_rules, run, Spares-record_event, Spares-drop_tenant_aux_database) depth 9

  pub Spares-migrate_tenant_workflow : Spares P (migrate_tenant_workflow t p id)
  unfolding migrate_tenant_workflow mark_tenant_migrating mark_tenant_migrated
  Spares-migrate_tenant_workflow =
      search
        (
          spare_rules, run, Spares-record_event, Spares-migrate_data, Spares-switch_traffic,
          Spares-compensate_migrate,
        )
        depth 9

  Spares-compensate_backup :
      {A : Type 0} (e : Error) → Spares P (compensate_backup t p id {A = A} e)
  unfolding compensate_backup mark_tenant_backup_failed
  Spares-compensate_backup e = search (spare_rules, run, Spares-record_event) depth 9

  pub Spares-backup_tenant_workflow : Spares P (backup_tenant_workflow t p id)
  unfolding backup_tenant_workflow mark_tenant_backing_up mark_tenant_backed_up
  Spares-backup_tenant_workflow =
      search
        (spare_rules, run, Spares-record_event, Spares-backup_tenant_data, Spares-compensate_backup)
        depth 9

  Spares-compensate_restore :
      (taken : Bool) (file : Text) {A : Type 0} (e : Error)
      → Spares P (compensate_restore t p id taken file {A = A} e)
  unfolding compensate_restore mark_tenant_restore_failed
  Spares-compensate_restore taken file e =
      search (spare_rules, run, Spares-record_event, Spares-restore_rollback) depth 9

  pub Spares-restore_tenant_workflow : (n : ℕ) → Spares P (restore_tenant_workflow t p id n)
  unfolding restore_tenant_workflow mark_tenant_restoring mark_tenant_restored
  Spares-restore_tenant_workflow n =
      search
        (
          spare_rules, run, Spares-record_event, Spares-pre_restore_snapshot, Spares-restore_data,
          Spares-compensate_restore,
        )
        depth 9

  Spares-restore_or_escalate :
      (workflow_id : Text) → Spares P (restore_or_escalate t p workflow_id id)
  unfolding restore_or_escalate mark_reconcile_unrecoverable
  Spares-restore_or_escalate workflow_id =
      search (spare_rules, run, Spares-write_audit, Spares-restore_tenant_from_backup) depth 9

  Spares-repair :
      (workflow_id : Text) (drifts : List DriftKind) → Spares P (repair t p workflow_id id drifts)
  unfolding repair
  Spares-repair workflow_id drifts =
      search
        (
          spare_rules, run, Spares-restore_or_escalate, Spares-ensure_tenant_database,
          Spares-backup_tenant_data,
        )
        depth 9

  Spares-conclude :
      (workflow_id : Text) (drifts remaining : List DriftKind)
      → Spares P (conclude t p workflow_id id drifts remaining)
  unfolding conclude mark_reconcile_converged mark_reconcile_failed
  Spares-conclude workflow_id drifts remaining =
      search (spare_rules, run, Spares-write_audit) depth 9

  Spares-repair_and_probe :
      (workflow_id : Text) (spec : TenantSpec) (drifts : List DriftKind)
      → Spares P (repair_and_probe t p workflow_id id spec drifts)
  unfolding repair_and_probe record_reconcile_drift
  Spares-repair_and_probe workflow_id spec drifts =
      search
        (
          spare_rules, run, Spares-write_audit, Spares-repair, Spares-conclude,
          Spares-probe_tenant_actual_state,
        )
        depth 9

  Spares-reconcile_active :
      (workflow_id : Text) (spec : TenantSpec) → Spares P (reconcile_active t p workflow_id id spec)
  unfolding reconcile_active mark_reconcile_converged
  Spares-reconcile_active workflow_id spec =
      search
        (
          spare_rules, run, Spares-write_audit, Spares-repair_and_probe,
          Spares-probe_tenant_actual_state,
        )
        depth 9

  pub Spares-reconcile_tenant_workflow :
      (workflow_id : Text) → Spares P (reconcile_tenant_workflow t p workflow_id id)
  unfolding reconcile_tenant_workflow mark_reconcile_skipped
  Spares-reconcile_tenant_workflow workflow_id =
      search
        (spare_rules, run, Spares-write_audit, Spares-resolve_tenant_spec, Spares-reconcile_active)
        depth 9
