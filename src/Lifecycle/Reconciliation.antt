-- ===== src/Lifecycle/Reconciliation.antt =====
-- The reconciliation workflow follows the relation.
use tenantflow.Prelude.{Text, List}
use tenantflow.Model.{DriftKind, TenantSpec}
use tenantflow.World.{World, Act}
use tenantflow.Cloud.Provider.{CloudProvider}
use tenantflow.Workflow.Temporal.{Temporal, TemporalLaws}
use tenantflow.Workflow.Reconcile.{
  restore_or_escalate, repair, conclude, repair_and_probe, reconcile_active,
  reconcile_tenant_workflow,
}
use tenantflow.Activities.Reconcile.{
  record_reconcile_drift, mark_reconcile_converged, mark_reconcile_skipped, mark_reconcile_failed,
  mark_reconcile_unrecoverable,
}
use tenantflow.Lifecycle.Steps.{Reach}
use tenantflow.Lifecycle.Follows.{Follows, Follows-execute, call_rules}
use tenantflow.Lifecycle.Recovery.{
  Follows-resolve_tenant_spec, Follows-write_audit, Follows-backup_tenant_data,
  Follows-probe_tenant_actual_state, Follows-ensure_tenant_database,
  Follows-restore_tenant_from_backup,
}

module _ {S : Type 0} {rely : World S → World S → Type 0} {t : Temporal S} (p : CloudProvider S)
    (laws : TemporalLaws S rely t) (others : (w w' : World S) → rely w w' → Reach w w')
    (workflow_id : Text) where
  run : {A : Type 0} (m : Act S A) → Follows m → Follows (t.execute A m)
  run m f = Follows-execute laws others m f

  Follows-restore_or_escalate : (id : Text) → Follows (restore_or_escalate t p workflow_id id)
  unfolding restore_or_escalate mark_reconcile_unrecoverable
  Follows-restore_or_escalate id =
      search (call_rules, run, Follows-write_audit, Follows-restore_tenant_from_backup) depth 9

  Follows-repair :
      (id : Text) (drifts : List DriftKind) → Follows (repair t p workflow_id id drifts)
  unfolding repair
  Follows-repair id drifts =
      search
        (
          call_rules, run, Follows-restore_or_escalate, Follows-ensure_tenant_database,
          Follows-backup_tenant_data,
        )
        depth 9

  Follows-conclude :
      (id : Text) (drifts remaining : List DriftKind)
      → Follows (conclude t p workflow_id id drifts remaining)
  unfolding conclude mark_reconcile_converged mark_reconcile_failed
  Follows-conclude id drifts remaining = search (call_rules, run, Follows-write_audit) depth 9

  Follows-repair_and_probe :
      (id : Text) (spec : TenantSpec) (drifts : List DriftKind)
      → Follows (repair_and_probe t p workflow_id id spec drifts)
  unfolding repair_and_probe record_reconcile_drift
  Follows-repair_and_probe id spec drifts =
      search
        (
          call_rules, run, Follows-write_audit, Follows-repair, Follows-conclude,
          Follows-probe_tenant_actual_state,
        )
        depth 9

  Follows-reconcile_active :
      (id : Text) (spec : TenantSpec) → Follows (reconcile_active t p workflow_id id spec)
  unfolding reconcile_active mark_reconcile_converged
  Follows-reconcile_active id spec =
      search
        (
          call_rules, run, Follows-write_audit, Follows-repair_and_probe,
          Follows-probe_tenant_actual_state,
        )
        depth 9

  pub Follows-reconcile_tenant_workflow :
      (id : Text) → Follows (reconcile_tenant_workflow t p workflow_id id)
  unfolding reconcile_tenant_workflow mark_reconcile_skipped
  Follows-reconcile_tenant_workflow id =
      search
        (
          call_rules, run, Follows-write_audit, Follows-resolve_tenant_spec,
          Follows-reconcile_active,
        )
        depth 9
