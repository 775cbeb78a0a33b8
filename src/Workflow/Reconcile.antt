-- ===== src/Workflow/Reconcile.antt =====
-- internal/workflow/reconcile.go: probe, compare, repair, and probe again.
use tenantflow.Prelude.{Text, ⊤, Bool, true, false, List, [], ◌∷◌, if◌then◌else◌}
use tenantflow.Model.{
  Backup, TenantSpec, ReconcileActualState, DriftKind, missing_database, missing_backup, active,
  same_status,
}
use tenantflow.World.{
  Act, non_retryable, application, reconcile_unrecoverable, reconcile_unconverged, ◌>>=◌, ◌>>◌,
  pure, raise, or_else, ignoring,
}
use tenantflow.Cloud.Provider.{CloudProvider}
use tenantflow.Workflow.Temporal.{Temporal}
use tenantflow.Activities.Reconcile.{
  resolve_tenant_spec, probe_tenant_actual_state, ensure_tenant_database, record_reconcile_drift,
  mark_reconcile_converged, mark_reconcile_skipped, mark_reconcile_failed,
  mark_reconcile_unrecoverable, restore_tenant_from_backup, is_no_verified_backup,
}
use tenantflow.Activities.Reconcile.Drift.{detect_drifts, contains_drift, needs_database_repair}
use tenantflow.Activities.Backup.{backup_tenant_data}

pub record ReconcileResult : Type 0 where
  pub tenant_id : Text
  pub converged : Bool
  pub drifts : List DriftKind
  pub repaired : List DriftKind

-- `len(drifts) == 0`
abbrev pub no_drift : List DriftKind → Bool
no_drift [] = true
no_drift (_ ∷ _) = false

abbrev pub converged_result : Text → List DriftKind → ReconcileResult
converged_result id drifts = record {
  tenant_id = id;
  converged = true;
  drifts = drifts;
  repaired = drifts;
}

-- `workflow_id` is the execution's own ID, which the activities put into the audit events.
module _ {S : Type 0} (t : Temporal S) (p : CloudProvider S) (workflow_id : Text) where
  -- A missing database is restored from a backup, or the run fails for good.
  unfoldable pub restore_or_escalate : Text → Act S ⊤
  restore_or_escalate id = or_else (t.execute ⊤ (restore_tenant_from_backup p workflow_id id)) (λ e.
      if is_no_verified_backup e
      then (ignoring (t.execute ⊤ (mark_reconcile_unrecoverable workflow_id id))
          >> raise (non_retryable reconcile_unrecoverable))
      else raise e)

  unfoldable pub repair : Text → List DriftKind → Act S ⊤
  unfolding restore_or_escalate
  repair id drifts = do
    if contains_drift drifts missing_database then restore_or_escalate id else pure tt
    if needs_database_repair drifts then t.execute ⊤ (ensure_tenant_database p id) else pure tt
    if contains_drift drifts missing_backup
        then (t.execute Backup (backup_tenant_data p id) >>= λ _. pure tt)
        else pure tt

  unfoldable pub conclude : Text → List DriftKind → List DriftKind → Act S ReconcileResult
  conclude id drifts remaining =
      if no_drift remaining
      then (t.execute ⊤ (mark_reconcile_converged workflow_id id drifts)
          >> pure (converged_result id drifts))
      else (ignoring (t.execute ⊤ (mark_reconcile_failed workflow_id id))
          >> raise (application reconcile_unconverged))

  unfoldable pub repair_and_probe : Text → TenantSpec → List DriftKind → Act S ReconcileResult
  repair_and_probe id spec drifts = do
    t.execute ⊤ (record_reconcile_drift workflow_id id drifts)
    repair id drifts
    after ← t.execute ReconcileActualState (probe_tenant_actual_state p spec)
    conclude id drifts (detect_drifts spec after)

  unfoldable pub reconcile_active : Text → TenantSpec → Act S ReconcileResult
  reconcile_active id spec = do
    actual ← t.execute ReconcileActualState (probe_tenant_actual_state p spec)
    let drifts = detect_drifts spec actual
    if no_drift drifts
        then (t.execute ⊤ (mark_reconcile_converged workflow_id id [])
            >> pure (converged_result id []))
        else repair_and_probe id spec drifts

  unfoldable pub reconcile_tenant_workflow : Text → Act S ReconcileResult
  reconcile_tenant_workflow id = do
    spec ← t.execute TenantSpec (resolve_tenant_spec id)
    if same_status spec.status active
        then reconcile_active id spec
        else (t.execute ⊤ (mark_reconcile_skipped workflow_id id) >> pure (converged_result id []))
