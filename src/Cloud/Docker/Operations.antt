-- ===== src/Cloud/Docker/Operations.antt =====
-- The methods of DockerProvider in internal/cloud/docker.go.
use tenantflow.Prelude.{Text, ⊤, Bool, true, false, List, [], ◌∷◌, if◌then◌else◌}
use tenantflow.Model.{DatabaseState}
use tenantflow.World.{Result, other}
use tenantflow.Call.{Call, return, fail, ◌>>=◌, ◌>>◌, dropping}
use tenantflow.Cloud.Names.{safe_file, validate_identifier, tenant_database_name, backup_name}
use tenantflow.Cloud.Provider.{CloudProvider}
use tenantflow.Cloud.Docker.Client.{
  Docker, parse_bool_out, exec_shell, exec_postgres, query_postgres,
}
use tenantflow.Cloud.Docker.Sql.{
  create_database_sql, ownership_statements, drop_role_sql, database_exists_sql, owner_sql,
  public_connect_sql, role_exists_sql, terminate_sql, drop_database_sql, rename_database_sql,
  dump_script, restore_script, validate_script,
}

-- A computation without effects, called.
abbrev pub lift : {S A : Type 0} → Result A → Call S A
lift r s = (r, s)

module _ {S : Type 0} (docker : Docker S) where
  -- The loop over the statements: the first that fails ends it.
  unfoldable pub exec_all : List Text → Call S ⊤
  exec_all [] = return tt
  exec_all (sql ∷ rest) = exec_postgres docker sql >> exec_all rest

  unfoldable pub apply_database_ownership : Text → Call S ⊤
  unfolding exec_all ownership_statements
  apply_database_ownership db = lift (ownership_statements db) >>= exec_all

  unfoldable pub create_database_named : Text → Call S ⊤
  unfolding apply_database_ownership
  create_database_named db = do
    lift (validate_identifier db)
    exec_postgres docker (create_database_sql db)
    apply_database_ownership db

  unfoldable pub drop_tenant_role : Text → Call S ⊤
  drop_tenant_role id = do
    lift (validate_identifier id)
    exec_postgres docker (drop_role_sql (tenant_database_name id))

  -- InspectDatabase after the answer of the first query.
  unfoldable pub inspect_existing : Text → Bool → Call S DatabaseState
  inspect_existing db false =
      return record { exists = false; owner_role = []; public_connect = false }
  inspect_existing db true = do
    owner ← query_postgres docker (owner_sql db)
    open_to ← query_postgres docker (public_connect_sql db)
    return record { exists = true; owner_role = owner; public_connect = parse_bool_out open_to }

  unfoldable pub inspect_database : Text → Call S DatabaseState
  unfolding inspect_existing
  inspect_database db = do
    lift (validate_identifier db)
    out ← query_postgres docker (database_exists_sql db)
    inspect_existing db (parse_bool_out out)

  unfoldable pub role_exists : Text → Call S Bool
  role_exists role = do
    lift (validate_identifier role)
    out ← query_postgres docker (role_exists_sql role)
    return (parse_bool_out out)

  unfoldable pub ensure_database_ownership : Text → Call S ⊤
  unfolding apply_database_ownership
  ensure_database_ownership db = lift (validate_identifier db) >> apply_database_ownership db

  unfoldable pub drop_database_named : Text → Call S ⊤
  drop_database_named db = do
    lift (validate_identifier db)
    dropping (exec_postgres docker (terminate_sql db))
    exec_postgres docker (drop_database_sql db)

  -- SnapshotDatabase from the name of the file on.
  unfoldable pub dump : Text → Text → Call S Text
  dump id file = do exec_shell docker (dump_script (tenant_database_name id) file); return file

  unfoldable pub snapshot_database : Text → Call S Text
  unfolding dump
  snapshot_database id s =
      (lift (validate_identifier id) >> dump id (backup_name id (docker.now_stamp s))) s

  unfoldable pub restore_database_from_backup : Text → Text → Call S ⊤
  restore_database_from_backup db file = do
    lift (validate_identifier db)
    if safe_file file then return tt else fail other
    exec_shell docker (restore_script db file)

  unfoldable pub validate_database : Text → Call S ⊤
  validate_database db = lift (validate_identifier db) >> exec_shell docker (validate_script db)

  unfoldable pub rename_database : Text → Text → Call S ⊤
  rename_database old new = do
    lift (validate_identifier old)
    lift (validate_identifier new)
    exec_postgres docker (rename_database_sql old new)

  abbrev pub docker_provider : CloudProvider S
  docker_provider = record {
    create_database = λ id. create_database_named (tenant_database_name id);
    drop_database = λ id. drop_database_named (tenant_database_name id);
    drop_tenant_role = drop_tenant_role;
    create_database_named = create_database_named;
    drop_database_named = drop_database_named;
    snapshot_database = snapshot_database;
    restore_database_from_backup = restore_database_from_backup;
    validate_database = validate_database;
    rename_database = rename_database;
    inspect_database = inspect_database;
    role_exists = role_exists;
    ensure_database_ownership = ensure_database_ownership;
  }
