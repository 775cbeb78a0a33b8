-- ===== src/Contracts/Escalation.antt =====
-- A reconciliation that finds a database missing, with nothing to restore it from: it escalates and
-- does not make an empty database.
use tenantflow.Prelude.{Text, ⊤, true, false, ◌≡◌, refl, List, [], ◌∷◌, arith, if◌then◌else◌}
use tenantflow.Model.{
  TenantSpec, ReconcileActualState, DriftKind, missing_database, active, same_status,
}
use tenantflow.World.{World, Act, ok, non_retryable, reconcile_unrecoverable, ◌>>=◌, ◌>>◌, pure}
use tenantflow.Cloud.Provider.{CloudProvider}
use tenantflow.Activities.Reconcile.{
  resolve_tenant_spec, probe_tenant_actual_state, record_reconcile_drift, mark_reconcile_converged,
  mark_reconcile_unrecoverable, mark_reconcile_skipped, is_no_verified_backup,
}
use tenantflow.Activities.Reconcile.Drift.{detect_drifts, contains_drift}
use tenantflow.Workflow.Temporal.{Temporal, TemporalLaws}
use tenantflow.Workflow.Reconcile.{
  ReconcileResult, restore_or_escalate, repair, repair_and_probe, reconcile_active,
  reconcile_tenant_workflow, no_drift, converged_result,
}
use tenantflow.Contracts.{Holds, Keeps, Holds-raise, Holds-if, Holds-or_else, Holds-execute}
use tenantflow.Contracts.Stages.{Holds-then, Holds-knowing, Keeps-ignoring}
use tenantflow.Contracts.Statements.{Keeps-write_audit}
use tenantflow.Contracts.Missing.{
  SeesMissing, IsUnrecoverable, Promised, IgnoresTrail-IsUnrecoverable, Holds-resolve_tenant_spec,
  Holds-probe, Holds-restore,
}

drift_found :
    (id : Text) (spec : TenantSpec) (actual : ReconcileActualState)
    → Promised id spec
    → actual.database.exists ≡ false
    → contains_drift (detect_drifts spec actual) missing_database ≡ true
unfolding detect_drifts contains_drift
drift_found id spec actual (own, required, on) absent = ground (arith, required, absent)

module _ {S : Type 0} {p : CloudProvider S} (id : Text) {P : S → Type 0} (sees : SeesMissing p id P)
    {rely : World S → World S → Type 0} {t : Temporal S} (laws : TemporalLaws S rely t)
    (others : (w w' : World S) → rely w w' → IsUnrecoverable P id w → IsUnrecoverable P id w')
    (workflow_id : Text) where
  run :
      {A : Type 0} {F : A → Type 0} (m : Act S A)
      → Holds (IsUnrecoverable P id) (IsUnrecoverable P id) (λ a w. F a) m
      → Holds (IsUnrecoverable P id) (IsUnrecoverable P id) (λ a w. F a) (t.execute A m)
  run m h = Holds-execute laws others (λ a w w' r x. x) m h

  -- Nothing follows a call that never succeeds.
  blocked :
      {A B : Type 0} (m : Act S A) (f : A → Act S B)
      → Holds (IsUnrecoverable P id) (IsUnrecoverable P id) (λ a w. ⊥) m
      → Holds (IsUnrecoverable P id) (IsUnrecoverable P id) (λ a w. ⊥) (m >>= f)
  blocked m f h = Holds-knowing {F = λ a. ⊥} m f h (λ w i. i) (λ a impossible. absurd impossible)

  Holds-restore_or_escalate :
      Holds
        (IsUnrecoverable P id)
        (IsUnrecoverable P id)
        (λ a w. ⊥)
        (restore_or_escalate t p workflow_id id)
  unfolding restore_or_escalate mark_reconcile_unrecoverable
  Holds-restore_or_escalate =
      Holds-or_else _ _ (run _ (Holds-restore p id P sees workflow_id)) (λ w i. i)
        (λ e.
          Holds-if (is_no_verified_backup e) _ _
            (λ h.
              Holds-then _ _
                (Keeps-ignoring _ (
                  run _ (
                    Keeps-write_audit (IgnoresTrail-IsUnrecoverable p id P sees) workflow_id id _
                      _)))
                (λ w i. i) (λ a. Holds-raise (non_retryable reconcile_unrecoverable) (λ w i. i)))
            (λ h. Holds-raise e (λ w i. i)))

  Holds-first_repair :
      (drifts : List DriftKind)
      → contains_drift drifts missing_database ≡ true
      → Holds
          (IsUnrecoverable P id)
          (IsUnrecoverable P id)
          (λ a w. ⊥)
          (if contains_drift drifts missing_database
            then restore_or_escalate t p workflow_id id
            else pure tt)
  Holds-first_repair drifts missing =
      Holds-if (contains_drift drifts missing_database) _ _ (λ h. Holds-restore_or_escalate)
        (λ h. absurd (cc (h, missing)))

  Holds-repair :
      (drifts : List DriftKind)
      → contains_drift drifts missing_database ≡ true
      → Holds
          (IsUnrecoverable P id)
          (IsUnrecoverable P id)
          (λ a w. ⊥)
          (repair t p workflow_id id drifts)
  unfolding repair
  Holds-repair drifts missing = search (blocked, Holds-first_repair, missing) depth 5

  Keeps-record_drift :
      (drifts : List DriftKind)
      → Keeps (IsUnrecoverable P id) (t.execute ⊤ (record_reconcile_drift workflow_id id drifts))
  unfolding record_reconcile_drift
  Keeps-record_drift drifts =
      run _ (Keeps-write_audit (IgnoresTrail-IsUnrecoverable p id P sees) workflow_id id _ _)

  followed :
      {A B : Type 0} (m : Act S A) (f : A → Act S B)
      → Keeps (IsUnrecoverable P id) m
      → ((a : A) → Holds (IsUnrecoverable P id) (IsUnrecoverable P id) (λ b w. ⊥) (f a))
      → Holds (IsUnrecoverable P id) (IsUnrecoverable P id) (λ b w. ⊥) (m >>= f)
  followed m f h hf = Holds-then m f h (λ w i. i) hf

  Holds-repair_and_probe :
      (spec : TenantSpec) (drifts : List DriftKind)
      → contains_drift drifts missing_database ≡ true
      → Holds
          (IsUnrecoverable P id)
          (IsUnrecoverable P id)
          (λ a w. ⊥)
          (repair_and_probe t p workflow_id id spec drifts)
  unfolding repair_and_probe
  Holds-repair_and_probe spec drifts missing =
      search (followed, Keeps-record_drift, blocked, Holds-repair, missing) depth 8

  nothing_converged :
      (drifts : List DriftKind)
      → contains_drift drifts missing_database ≡ true
      → no_drift drifts ≡ false
  unfolding contains_drift
  nothing_converged [] h = absurd (cc h)
  nothing_converged (d ∷ ds) h = refl

  abbrev after_probe : TenantSpec → ReconcileActualState → Act S ReconcileResult
  after_probe spec actual =
      let drifts = detect_drifts spec actual in
      if no_drift drifts
      then (t.execute ⊤ (mark_reconcile_converged workflow_id id [])
          >> pure (converged_result id []))
      else repair_and_probe t p workflow_id id spec drifts

  abbrev after_spec : TenantSpec → Act S ReconcileResult
  after_spec spec =
      if same_status spec.status active
      then reconcile_active t p workflow_id id spec
      else (t.execute ⊤ (mark_reconcile_skipped workflow_id id) >> pure (converged_result id []))

  Holds-reconcile_active :
      (spec : TenantSpec)
      → Promised id spec
      → Holds
          (IsUnrecoverable P id)
          (IsUnrecoverable P id)
          (λ a w. ⊥)
          (reconcile_active t p workflow_id id spec)
  unfolding reconcile_active
  Holds-reconcile_active spec promised =
      Holds-knowing {F = λ a. a.database.exists ≡ false}
        (t.execute ReconcileActualState (probe_tenant_actual_state p spec)) (after_probe spec)
        (run _ (Holds-probe p id P sees spec promised)) (λ w i. i)
        (λ a absent.
          let found = drift_found id spec a promised absent in
          rw (nothing_converged _ found) (Holds-repair_and_probe spec (detect_drifts spec a) found))

  Holds-reconcile_tenant_workflow :
      Holds
        (IsUnrecoverable P id)
        (IsUnrecoverable P id)
        (λ a w. ⊥)
        (reconcile_tenant_workflow t p workflow_id id)
  unfolding reconcile_tenant_workflow
  Holds-reconcile_tenant_workflow =
      Holds-knowing {F = Promised id} (t.execute TenantSpec (resolve_tenant_spec id)) after_spec
        (run _ (Holds-resolve_tenant_spec p id P sees)) (λ w i. i)
        (λ spec promised. rw (promised.2) (Holds-reconcile_active spec promised))

  -- Under the laws of an execution, if the provider sees the database of an active dedicated
  -- tenant missing, there is no completed backup of it, and the other workflows leave that so: the
  -- reconciliation leaves it so as well, and makes no empty database in its place.
  pub missing_database_left :
      (w : World S)
      → IsUnrecoverable P id w
      → IsUnrecoverable P id (reconcile_tenant_workflow t p workflow_id id w).1
  missing_database_left w i = Holds-reconcile_tenant_workflow.ends w i

  -- Under the laws of an execution, if the provider sees the database of an active dedicated
  -- tenant missing, there is no completed backup of it, and the other workflows leave that so: the
  -- reconciliation does not report success.
  pub missing_database_escalates :
      (w : World S) (r : ReconcileResult)
      → IsUnrecoverable P id w
      → ¬ ((reconcile_tenant_workflow t p workflow_id id w).0 ≡ ok r)
  missing_database_escalates w r i e = Holds-reconcile_tenant_workflow.gives w r i e
