-- ===== src/Lifecycle/Sagas.antt =====
-- The workflows of upgrade, migration, backup and restore follow the relation.
use tenantflow.Prelude.{ℕ, Text, Bool}
use tenantflow.Model.{Quota}
use tenantflow.World.{World, Act, Error}
use tenantflow.Cloud.Provider.{CloudProvider}
use tenantflow.Workflow.Temporal.{Temporal, TemporalLaws}
use tenantflow.Workflow.Upgrade.{compensate_upgrade, upgrade_tenant_workflow}
use tenantflow.Workflow.Migrate.{compensate_migrate, migrate_tenant_workflow}
use tenantflow.Workflow.Backup.{compensate_backup, backup_tenant_workflow}
use tenantflow.Workflow.Restore.{compensate_restore, restore_tenant_workflow}
use tenantflow.Activities.Upgrade.{
  enable_features, update_billing, mark_tenant_upgrading, mark_tenant_upgraded,
  mark_tenant_upgrade_failed,
}
use tenantflow.Activities.Migrate.{
  mark_tenant_migrating, mark_tenant_migrated, mark_tenant_migrate_failed,
}
use tenantflow.Activities.Backup.{
  mark_tenant_backing_up, mark_tenant_backed_up, mark_tenant_backup_failed,
}
use tenantflow.Activities.Restore.{
  mark_tenant_restoring, pre_restore_snapshot, mark_tenant_restored, mark_tenant_restore_failed,
}
use tenantflow.Lifecycle.Steps.{Reach}
use tenantflow.Lifecycle.Follows.{Follows, Follows-execute, call_rules}
use tenantflow.Lifecycle.Activities.{Follows-record_event}
use tenantflow.Lifecycle.Recovery.{
  Follows-verify_tenant_active, Follows-raise_quotas, Follows-rollback_quotas, Follows-migrate_data,
  Follows-switch_traffic, Follows-drop_tenant_aux_database, Follows-backup_tenant_data,
  Follows-restore_data, Follows-restore_rollback,
}

module _ {S : Type 0} {rely : World S → World S → Type 0} {t : Temporal S}
    (laws : TemporalLaws S rely t) (others : (w w' : World S) → rely w w' → Reach w w') where
  run : {A : Type 0} (m : Act S A) → Follows m → Follows (t.execute A m)
  run m f = Follows-execute laws others m f

  Follows-compensate_upgrade :
      {A : Type 0} (id : Text) (old : Quota) (was_raised : Bool) (e : Error)
      → Follows (compensate_upgrade t id old was_raised {A = A} e)
  unfolding compensate_upgrade mark_tenant_upgrade_failed
  Follows-compensate_upgrade id old was_raised e =
      search (call_rules, run, Follows-record_event, Follows-rollback_quotas) depth 9

  pub Follows-upgrade_tenant_workflow : (id : Text) → Follows (upgrade_tenant_workflow t id)
  unfolding upgrade_tenant_workflow enable_features update_billing mark_tenant_upgrading
      mark_tenant_upgraded
  Follows-upgrade_tenant_workflow id =
      search
        (
          call_rules, run, Follows-record_event, Follows-verify_tenant_active, Follows-raise_quotas,
          Follows-compensate_upgrade,
        )
        depth 12

module _ {S : Type 0} {rely : World S → World S → Type 0} {t : Temporal S} (p : CloudProvider S)
    (laws : TemporalLaws S rely t) (others : (w w' : World S) → rely w w' → Reach w w') where
  run_with : {A : Type 0} (m : Act S A) → Follows m → Follows (t.execute A m)
  run_with m f = Follows-execute laws others m f

  Follows-compensate_migrate :
      {A : Type 0} (id : Text) (switched : Bool) (e : Error)
      → Follows (compensate_migrate t p id switched {A = A} e)
  unfolding compensate_migrate mark_tenant_migrate_failed
  Follows-compensate_migrate id switched e =
      search (call_rules, run_with, Follows-record_event, Follows-drop_tenant_aux_database) depth 9

  pub Follows-migrate_tenant_workflow : (id : Text) → Follows (migrate_tenant_workflow t p id)
  unfolding migrate_tenant_workflow mark_tenant_migrating mark_tenant_migrated
  Follows-migrate_tenant_workflow id =
      search
        (
          call_rules, run_with, Follows-record_event, Follows-migrate_data, Follows-switch_traffic,
          Follows-compensate_migrate,
        )
        depth 9

  Follows-compensate_backup :
      {A : Type 0} (id : Text) (e : Error) → Follows (compensate_backup t p id {A = A} e)
  unfolding compensate_backup mark_tenant_backup_failed
  Follows-compensate_backup id e = search (call_rules, run_with, Follows-record_event) depth 9

  pub Follows-backup_tenant_workflow : (id : Text) → Follows (backup_tenant_workflow t p id)
  unfolding backup_tenant_workflow mark_tenant_backing_up mark_tenant_backed_up
  Follows-backup_tenant_workflow id =
      search
        (
          call_rules, run_with, Follows-record_event, Follows-backup_tenant_data,
          Follows-compensate_backup,
        )
        depth 9

  Follows-compensate_restore :
      {A : Type 0} (id : Text) (taken : Bool) (file : Text) (e : Error)
      → Follows (compensate_restore t p id taken file {A = A} e)
  unfolding compensate_restore mark_tenant_restore_failed
  Follows-compensate_restore id taken file e =
      search (call_rules, run_with, Follows-record_event, Follows-restore_rollback) depth 9

  pub Follows-restore_tenant_workflow :
      (id : Text) (n : ℕ) → Follows (restore_tenant_workflow t p id n)
  unfolding restore_tenant_workflow mark_tenant_restoring mark_tenant_restored pre_restore_snapshot
  Follows-restore_tenant_workflow id n =
      search
        (
          call_rules, run_with, Follows-record_event, Follows-restore_data,
          Follows-compensate_restore,
        )
        depth 9
