-- ===== src/Tests/Drift.antt =====
-- Drift of a dedicated tenant whose database is owned by somebody else, and of one in good order.
use tenantflow.Prelude.{◌≡◌, ◌↔◌, refl, true, false, [], ◌∷◌, codes, text_eq}
use tenantflow.Model.{TenantSpec, ReconcileActualState, active, dedicated, ownership}
use tenantflow.Cloud.Names.{tenant_database_name}
use tenantflow.Activities.Reconcile.Drift.{detect_drifts}
use tenantflow.Activities.Reconcile.Desired.{HasDesiredShape, no_drift_iff_shape}
use tenantflow.Fixture.Start.{acme}

abbrev acme_spec : TenantSpec
acme_spec = record {
  tenant_id = acme;
  status = active;
  isolation_mode = dedicated;
  require_database = true;
  require_backup = true;
}

abbrev acme_foreign : ReconcileActualState
acme_foreign = record {
  tenant_id = acme;
  database = record { exists = true; owner_role = codes "postgres"; public_connect = false };
  role_exists = true;
  completed_backups = 1;
}

foreign_owner_found : detect_drifts acme_spec acme_foreign ≡ ownership ∷ []
unfolding detect_drifts tenant_database_name text_eq
foreign_owner_found = refl

no_drift_iff_shape_example :
    (detect_drifts acme_spec acme_foreign ≡ []) ↔ HasDesiredShape acme_spec acme_foreign
no_drift_iff_shape_example = no_drift_iff_shape acme_spec acme_foreign refl
