-- ===== src/Cloud/Docker/Converges.antt =====
-- EnsureTenantDatabase and the probe of internal/activities/reconcile.go, with the provider of
-- internal/cloud/docker.go: the repair of a tenant's database converges.
use tenantflow.Prelude.{ℕ, Text, true, false, ◌≡◌, arith, text_eq_refl, ap, ◌∙◌, sym, subst}
use tenantflow.Model.{TenantSpec}
use tenantflow.World.{World, ok, external}
use tenantflow.Cloud.Names.{tenant_database_name}
use tenantflow.Cloud.Docker.Client.{Docker}
use tenantflow.Cloud.Docker.Server.{Cluster}
use tenantflow.Cloud.Docker.Spec.{RunsPostgres}
use tenantflow.Cloud.Docker.Operations.{
  docker_provider, inspect_database, ensure_database_ownership, create_database_named, role_exists,
}
use tenantflow.Cloud.Docker.Repairs.{
  ensured, postured, healthy, OwnsItself, IsIsolated, promised_ensured-lem, promised_postured-lem,
  Simulates-ensured, Simulates-postured,
}
use tenantflow.Activities.Reconcile.{ensure_tenant_database, probe_database}
use tenantflow.Activities.Reconcile.Drift.{detect_drifts, needs_database_repair}

no_drift_when_healthy :
    (spec : TenantSpec) (backups : ℕ)
    → needs_database_repair (
        detect_drifts spec (record {
          tenant_id = spec.tenant_id;
          database = (healthy (tenant_database_name spec.tenant_id)).0;
          role_exists = true;
          completed_backups = backups;
        }))
      ≡ false
unfolding needs_database_repair detect_drifts
no_drift_when_healthy spec backups =
    ground (arith, text_eq_refl (tenant_database_name spec.tenant_id))

module _ {S : Type 0} (docker : Docker S) where
  ensure_tenant_database-ensured :
      (id : Text) (w : World S)
      → ensure_tenant_database (docker_provider docker) id w
        ≡ external
            (ensured
              (inspect_database docker)
              (ensure_database_ownership docker)
              (create_database_named docker)
              (tenant_database_name id))
            w
  unfolding ensure_tenant_database
  ensure_tenant_database-ensured id w = ground arith

  probe_database-postured :
      (spec : TenantSpec) (w : World S)
      → spec.require_database ≡ true
      → probe_database (docker_provider docker) spec w
        ≡ external
            (postured
              (inspect_database docker)
              (role_exists docker)
              (tenant_database_name spec.tenant_id))
            w
  unfolding probe_database
  probe_database-postured spec w h = ground arith

module _ {S : Type 0} {docker : Docker S} {view : S → Cluster}
    (host : RunsPostgres docker view) where
  ensured_and_probed :
      (db : Text) (s : S)
      → OwnsItself db
      → let after =
          ensured
            (inspect_database docker)
            (ensure_database_ownership docker)
            (create_database_named docker)
            db
            s in
        (after.0 ≡ ok tt)
        × ((postured (inspect_database docker) (role_exists docker) db after.1).0 ≡ ok (healthy db))
  ensured_and_probed db s h =
      let promised = promised_ensured-lem db (view s) h in
      let isolated =
        subst (IsIsolated db) (sym ((Simulates-ensured host db).leaves s)) promised.1 in
      (
        (Simulates-ensured host db).answers s ∙ promised.0,
        (Simulates-postured host db).answers _ ∙ promised_postured-lem db _ h isolated,
      )

  -- On a host that runs the postgres container, whatever has happened to the tenant's database and
  -- role, for an ID whose database name is a valid identifier without a suffix: the activity
  -- EnsureTenantDatabase succeeds, and the probe after it finds the database, owned by the tenant's
  -- role, closed to PUBLIC, and the role, so that no drift that asks for a repair is left.
  pub ensure_tenant_database-repairs :
      (spec : TenantSpec) (backups : ℕ) (w : World S)
      → spec.require_database ≡ true
      → OwnsItself (tenant_database_name spec.tenant_id)
      → let after = ensure_tenant_database (docker_provider docker) spec.tenant_id w in
        let probed = healthy (tenant_database_name spec.tenant_id) in
        (after.0 ≡ ok tt)
        × ((probe_database (docker_provider docker) spec after.1).0 ≡ ok probed)
        × (needs_database_repair (
              detect_drifts spec (record {
                tenant_id = spec.tenant_id;
                database = probed.0;
                role_exists = probed.1;
                completed_backups = backups;
              }))
            ≡ false)
  ensure_tenant_database-repairs spec backups w required h =
      let db = tenant_database_name spec.tenant_id in
      let ran = ensure_tenant_database-ensured docker spec.tenant_id w in
      let done = ensured_and_probed db w.ext h in
      (
        ap (λ p. p.0) ran ∙ done.0,
        ap (λ p. p.0) (probe_database-postured docker spec _ required)
            ∙ ap (λ p. (postured (inspect_database docker) (role_exists docker) db (p.1).ext).0) ran
            ∙ done.1,
        no_drift_when_healthy spec backups,
      )
