-- ===== src/Activities/Reconcile/Drift.antt =====
-- DetectDrifts of internal/activities/reconcile.go and needsDatabaseRepair of
-- internal/workflow/reconcile.go: which of the promises of a spec the actual state breaks.
use tenantflow.Prelude.{
  Bool, true, false, List, [], ◌∷◌, ◌++◌, ◌&&◌, ◌||◌, not, ◌==◌, text_eq, if◌then◌else◌,
}
use tenantflow.Model.{
  TenantSpec, ReconcileActualState, DriftKind, missing_database, missing_role, ownership,
  missing_backup,
}
use tenantflow.Cloud.Names.{tenant_database_name}

-- `if test { drifts = append(drifts, kind) }`
abbrev pub drift_if : Bool → DriftKind → List DriftKind
drift_if test kind = if test then kind ∷ [] else []

unfoldable pub detect_drifts : TenantSpec → ReconcileActualState → List DriftKind
detect_drifts spec actual =
    let db = actual.database in
    let expected_role = tenant_database_name spec.tenant_id in
    if spec.require_database
    then drift_if (not db.exists) missing_database
      ++ (drift_if (not actual.role_exists) missing_role
          ++ (drift_if (db.exists && not (text_eq db.owner_role expected_role)) ownership
              ++ (drift_if (db.exists && db.public_connect) DriftKind.public_connect
                  ++ drift_if (spec.require_backup && (actual.completed_backups == 0))
                      missing_backup)))
    else []

abbrev pub same_drift : DriftKind → DriftKind → Bool
same_drift missing_database missing_database = true
same_drift missing_role missing_role = true
same_drift ownership ownership = true
same_drift DriftKind.public_connect DriftKind.public_connect = true
same_drift missing_backup missing_backup = true
same_drift _ _ = false

-- slices.Contains
unfoldable pub contains_drift : List DriftKind → DriftKind → Bool
contains_drift [] k = false
contains_drift (d ∷ ds) k = same_drift d k || contains_drift ds k

abbrev pub is_database_drift : DriftKind → Bool
is_database_drift missing_backup = false
is_database_drift _ = true

unfoldable pub needs_database_repair : List DriftKind → Bool
needs_database_repair [] = false
needs_database_repair (d ∷ ds) = is_database_drift d || needs_database_repair ds
