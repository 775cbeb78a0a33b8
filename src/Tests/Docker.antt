-- ===== src/Tests/Docker.antt =====
-- Statements and methods of internal/cloud/docker.go on the stand-in host.
use tenantflow.Prelude.{true, false, ◌≡◌, refl, [], ◌∷◌, some, codes, text_eq}
use tenantflow.Model.{TenantSpec, active, dedicated}
use tenantflow.World.{World, ok}
use tenantflow.Cloud.Names.{
  tenant_database_name, all_chars, is_id_char, is_file_char, role_of, has_suffix,
}
use tenantflow.Cloud.Docker.Operations.{
  docker_provider, create_database_named, drop_database_named, drop_tenant_role, rename_database,
  inspect_database, role_exists, ensure_database_ownership, validate_database, snapshot_database,
  restore_database_from_backup,
}
use tenantflow.Cloud.Docker.Server.{Cluster, ensure_role, sql, read_statement}
use tenantflow.Cloud.Docker.Spec.{Simulates}
use tenantflow.Cloud.Docker.Promised
use tenantflow.Cloud.Docker.Reads.{read_statement-sql}
use tenantflow.Cloud.Docker.Refines.{methods_keep_promises}
use tenantflow.Cloud.Docker.Guards.{IsRefused, methods_refuse_invalid_names}
use tenantflow.Cloud.Docker.Repairs.{healthy}
use tenantflow.Cloud.Docker.Converges.{ensure_tenant_database-repairs}
use tenantflow.Activities.Reconcile.{ensure_tenant_database, probe_database}
use tenantflow.Activities.Reconcile.Drift.{detect_drifts, needs_database_repair}
use tenantflow.Fixture.Host.{Host, host_docker, host_docker-RunsPostgres}

read_statement-sql_example :
    read_statement (sql (ensure_role (codes "tenant_acme")))
    ≡ some (ensure_role (codes "tenant_acme"))
unfolding all_chars is_id_char
read_statement-sql_example = read_statement-sql (ensure_role (codes "tenant_acme")) refl

-- The database of acme is there with a session open, but nobody has isolated it.
abbrev drifted : Host
drifted = record {
  cluster = record {
    databases =
        record { name = codes "tenant_acme"; owner = codes "temporal"; open_to_public = true } ∷ [];
    roles = codes "temporal" ∷ [];
    sessions = codes "tenant_acme" ∷ [];
  };
  command = [];
  exit_code = 0;
}

abbrev view : Host → Cluster
view h = h.cluster

methods_keep_promises_example :
    Simulates view
      (create_database_named host_docker (codes "tenant_acme"))
      (Promised.create_database_named (codes "tenant_acme"))
    × Simulates view
        (drop_database_named host_docker (codes "tenant_acme"))
        (Promised.drop_database_named (codes "tenant_acme"))
    × Simulates view
        (drop_tenant_role host_docker (codes "acme"))
        (Promised.drop_tenant_role (codes "acme"))
    × Simulates view
        (rename_database host_docker (codes "tenant_acme") (codes "tenant_beta"))
        (Promised.rename_database (codes "tenant_acme") (codes "tenant_beta"))
    × Simulates view
        (inspect_database host_docker (codes "tenant_acme"))
        (Promised.inspect_database (codes "tenant_acme"))
    × Simulates view
        (role_exists host_docker (codes "tenant_acme"))
        (Promised.role_exists (codes "tenant_acme"))
    × Simulates view
        (ensure_database_ownership host_docker (codes "tenant_acme"))
        (Promised.ensure_database_ownership (codes "tenant_acme"))
unfolding all_chars is_id_char tenant_database_name
methods_keep_promises_example =
    methods_keep_promises host_docker-RunsPostgres (codes "tenant_acme") (codes "tenant_beta")
      (codes "acme") refl

methods_refuse_invalid_names_example :
    IsRefused (create_database_named host_docker (codes "a\"; DROP")) drifted
    × IsRefused (drop_database_named host_docker (codes "a\"; DROP")) drifted
    × IsRefused (drop_tenant_role host_docker (codes "a\"; DROP")) drifted
    × IsRefused (inspect_database host_docker (codes "a\"; DROP")) drifted
    × IsRefused (role_exists host_docker (codes "a\"; DROP")) drifted
    × IsRefused (ensure_database_ownership host_docker (codes "a\"; DROP")) drifted
    × IsRefused (validate_database host_docker (codes "a\"; DROP")) drifted
    × IsRefused (snapshot_database host_docker (codes "a\"; DROP")) drifted
    × IsRefused (rename_database host_docker (codes "a\"; DROP") (codes "tenant_acme")) drifted
    × IsRefused (rename_database host_docker (codes "tenant_acme") (codes "a\"; DROP")) drifted
    × IsRefused
        (restore_database_from_backup host_docker (codes "a\"; DROP") (codes "tenant_acme"))
        drifted
    × IsRefused
        (restore_database_from_backup host_docker (codes "tenant_acme") (codes "../x.sql"))
        drifted
unfolding all_chars is_id_char is_file_char
methods_refuse_invalid_names_example =
    methods_refuse_invalid_names host_docker drifted (codes "a\"; DROP") (codes "tenant_acme")
      (codes "../x.sql") refl refl

abbrev acme_spec : TenantSpec
acme_spec = record {
  tenant_id = codes "acme";
  status = active;
  isolation_mode = dedicated;
  require_database = true;
  require_backup = true;
}

abbrev drifted_world : World Host
drifted_world = record {
  tenants = [];
  audit = [];
  backups = [];
  next_backup_id = 1;
  quotas = [];
  now = 0;
  answers = [];
  ext = drifted;
}

ensure_tenant_database-repairs_example :
    ((ensure_tenant_database (docker_provider host_docker) (codes "acme") drifted_world).0 ≡ ok tt)
    × ((probe_database
          (docker_provider host_docker)
          acme_spec
          (ensure_tenant_database (docker_provider host_docker) (codes "acme") drifted_world).1).0
        ≡ ok (healthy (codes "tenant_acme")))
    × (needs_database_repair (
          detect_drifts acme_spec (record {
            tenant_id = codes "acme";
            database = (healthy (codes "tenant_acme")).0;
            role_exists = true;
            completed_backups = 2;
          }))
        ≡ false)
unfolding all_chars is_id_char tenant_database_name role_of has_suffix text_eq
ensure_tenant_database-repairs_example =
    ensure_tenant_database-repairs host_docker-RunsPostgres acme_spec 2 drifted_world refl
      (refl, refl)
