-- ===== src/Activities/Reconcile/Desired.antt =====
-- What DetectDrifts finds: the broken promises of a spec, all of them and nothing else.
use tenantflow.Prelude.{true, false, ◌≡◌, ◌↔◌, [], arith, text_eq_iff, ◌≤◌}
use tenantflow.Model.{
  TenantSpec, ReconcileActualState, DriftKind, missing_database, missing_role, ownership,
  missing_backup,
}
use tenantflow.Cloud.Names.{tenant_database_name}
use tenantflow.Activities.Reconcile.Drift.{detect_drifts, contains_drift, needs_database_repair}

-- The shape that the platform promises for a tenant: a database of its own, owned by its role and
-- closed to the public, the role, and a completed backup if one is required.
pub record HasDesiredShape (spec : TenantSpec) (actual : ReconcileActualState) : Type 0 where
  pub database_exists : actual.database.exists ≡ true
  pub role_is_there : actual.role_exists ≡ true
  pub owned : actual.database.owner_role ≡ tenant_database_name spec.tenant_id
  pub closed : actual.database.public_connect ≡ false
  pub backed_up : spec.require_backup ≡ true → 1 ≤ actual.completed_backups

module _ (spec : TenantSpec) (actual : ReconcileActualState) where
  -- For a tenant that is promised a database, DetectDrifts finds nothing exactly when the actual
  -- state has the promised shape.
  pub no_drift_iff_shape :
      spec.require_database ≡ true → (detect_drifts spec actual ≡ []) ↔ HasDesiredShape spec actual
  unfolding detect_drifts
  no_drift_iff_shape h = (
    (λ e. record {
      database_exists = ground (arith, h, e);
      role_is_there = ground (arith, h, e);
      owned = ground (
        arith,
        h,
        e,
        text_eq_iff actual.database.owner_role (tenant_database_name spec.tenant_id),
      );
      closed = ground (arith, h, e);
      backed_up = λ r. ground (arith, h, e, r);
    }),
    (λ s. ground (
      arith,
      h,
      s.database_exists,
      s.role_is_there,
      s.owned,
      s.closed,
      s.backed_up,
      text_eq_iff actual.database.owner_role (tenant_database_name spec.tenant_id),
    )),
  )

  -- For a tenant that is promised a database, each kind of drift is reported exactly when its
  -- promise is broken; ownership and public access are judged only where the database exists.
  detect_drifts-each :
      spec.require_database ≡ true
      → ((contains_drift (detect_drifts spec actual) missing_database ≡ true)
          ↔ (actual.database.exists ≡ false))
        × ((contains_drift (detect_drifts spec actual) missing_role ≡ true)
            ↔ (actual.role_exists ≡ false))
        × ((contains_drift (detect_drifts spec actual) ownership ≡ true) ↔ (
            (actual.database.exists ≡ true)
            × ¬ (actual.database.owner_role ≡ tenant_database_name spec.tenant_id)))
        × ((contains_drift (detect_drifts spec actual) DriftKind.public_connect ≡ true)
            ↔ ((actual.database.exists ≡ true) × (actual.database.public_connect ≡ true)))
        × ((contains_drift (detect_drifts spec actual) missing_backup ≡ true)
            ↔ ((spec.require_backup ≡ true) × (actual.completed_backups ≡ 0)))
  unfolding detect_drifts contains_drift
  detect_drifts-each h =
      ground
        (arith, h, text_eq_iff actual.database.owner_role (tenant_database_name spec.tenant_id))

  -- The database repair runs exactly when some drift other than the missing backup is found.
  needs_database_repair_iff : (needs_database_repair (detect_drifts spec actual) ≡ false) ↔ (
      (contains_drift (detect_drifts spec actual) missing_database ≡ false)
      × (contains_drift (detect_drifts spec actual) missing_role ≡ false)
      × (contains_drift (detect_drifts spec actual) ownership ≡ false)
      × (contains_drift (detect_drifts spec actual) DriftKind.public_connect ≡ false))
  unfolding detect_drifts contains_drift needs_database_repair
  needs_database_repair_iff = ground arith
