-- ===== src/Cloud/Docker/Guards.antt =====
-- What the methods of internal/cloud/docker.go refuse before they reach the container.
use tenantflow.Prelude.{Text, false, ◌≡◌, arith}
use tenantflow.World.{err, other}
use tenantflow.Call.{Call, ◌>>◌}
use tenantflow.Cloud.Names.{safe_id, safe_file, validate_identifier}
use tenantflow.Cloud.Docker.Client.{Docker}
use tenantflow.Cloud.Docker.Operations.{
  lift, ensure_database_ownership, create_database_named, drop_database_named, drop_tenant_role,
  rename_database, inspect_database, role_exists, validate_database, snapshot_database,
  restore_database_from_backup,
}

-- The call fails and nothing has been sent.
abbrev pub IsRefused : {S A : Type 0} → Call S A → S → Type 0
IsRefused m s = m s ≡ (err other, s)

module _ {S : Type 0} (docker : Docker S) (s : S) where
  refuses_first :
      {A : Type 0} (name : Text) (k : Call S A)
      → safe_id name ≡ false
      → IsRefused (lift (validate_identifier name) >> k) s
  refuses_first name k h = ground (arith, h)

  -- Whatever the Docker host answers: with a name that is no valid identifier every method fails and
  -- reaches neither the Docker client nor the server, the second name of a renaming and the name of
  -- a backup file included, which has its own alphabet.
  pub methods_refuse_invalid_names :
      (name valid file : Text)
      → safe_id name ≡ false
      → safe_file file ≡ false
      → IsRefused (create_database_named docker name) s
        × IsRefused (drop_database_named docker name) s
        × IsRefused (drop_tenant_role docker name) s
        × IsRefused (inspect_database docker name) s
        × IsRefused (role_exists docker name) s
        × IsRefused (ensure_database_ownership docker name) s
        × IsRefused (validate_database docker name) s
        × IsRefused (snapshot_database docker name) s
        × IsRefused (rename_database docker name valid) s
        × IsRefused (rename_database docker valid name) s
        × IsRefused (restore_database_from_backup docker name valid) s
        × IsRefused (restore_database_from_backup docker valid file) s
  unfolding create_database_named drop_database_named drop_tenant_role inspect_database role_exists
      ensure_database_ownership validate_database snapshot_database rename_database
      restore_database_from_backup
  methods_refuse_invalid_names name valid file h k = ground (arith, h, k)
