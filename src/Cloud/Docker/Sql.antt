-- ===== src/Cloud/Docker/Sql.antt =====
-- The statements and the scripts that internal/cloud/docker.go builds with fmt.Sprintf.
use tenantflow.Prelude.{Text, List, [], ◌∷◌, ◌++◌, codes}
use tenantflow.World.{Result, ok, err}
use tenantflow.Cloud.Names.{validate_identifier, tenant_owner_role}

unfoldable pub create_database_sql : Text → Text
create_database_sql db = codes "CREATE DATABASE \"" ++ (db ++ codes "\"")

unfoldable pub ensure_role_sql : Text → Text
ensure_role_sql role =
    codes "DO $$ BEGIN IF NOT EXISTS (SELECT FROM pg_roles WHERE rolname = '"
    ++ (role ++ (codes "') THEN CREATE ROLE \"" ++ (role ++ codes "\"; END IF; END $$;")))

unfoldable pub alter_owner_sql : Text → Text → Text
alter_owner_sql db role =
    codes "ALTER DATABASE \"" ++ (db ++ (codes "\" OWNER TO \"" ++ (role ++ codes "\"")))

unfoldable pub revoke_connect_sql : Text → Text
revoke_connect_sql db = codes "REVOKE CONNECT ON DATABASE \"" ++ (db ++ codes "\" FROM PUBLIC")

-- ownershipStatements
unfoldable pub ownership_statements : Text → Result (List Text)
ownership_statements db = elim (validate_identifier db) [
  | err e ↦ err e
  | ok _ ↦ elim (tenant_owner_role db) [
    | err e ↦ err e
    | ok role ↦ ok (ensure_role_sql role ∷ alter_owner_sql db role ∷ revoke_connect_sql db ∷ [])
  ]
]

unfoldable pub drop_role_sql : Text → Text
drop_role_sql role = codes "DROP ROLE IF EXISTS \"" ++ (role ++ codes "\"")

unfoldable pub database_exists_sql : Text → Text
database_exists_sql db =
    codes "SELECT EXISTS(SELECT 1 FROM pg_database WHERE datname = '" ++ (db ++ codes "')")

unfoldable pub owner_sql : Text → Text
owner_sql db =
    codes
      "SELECT COALESCE(r.rolname, '') FROM pg_database d LEFT JOIN pg_roles r ON r.oid = d.datdba WHERE d.datname = '"
    ++ (db ++ codes "'")

unfoldable pub public_connect_sql : Text → Text
public_connect_sql db =
    codes "SELECT has_database_privilege('public', '" ++ (db ++ codes "', 'CONNECT')")

unfoldable pub role_exists_sql : Text → Text
role_exists_sql role =
    codes "SELECT EXISTS(SELECT 1 FROM pg_roles WHERE rolname = '" ++ (role ++ codes "')")

unfoldable pub terminate_sql : Text → Text
terminate_sql db =
    codes "SELECT pg_terminate_backend(pid) FROM pg_stat_activity WHERE datname = '"
    ++ (db ++ codes "'")

unfoldable pub drop_database_sql : Text → Text
drop_database_sql db = codes "DROP DATABASE IF EXISTS \"" ++ (db ++ codes "\"")

unfoldable pub rename_database_sql : Text → Text → Text
rename_database_sql old new =
    codes "ALTER DATABASE \"" ++ (old ++ (codes "\" RENAME TO \"" ++ (new ++ codes "\"")))

-- backupDir
abbrev pub backup_dir : Text
backup_dir = codes "/tmp/tf-backups"

unfoldable pub dump_script : Text → Text → Text
dump_script db file =
    codes "mkdir -p "
    ++ (backup_dir
        ++ (codes " && pg_dump -U temporal \""
            ++ (db ++ (codes "\" -f " ++ (backup_dir ++ (codes "/" ++ file))))))

unfoldable pub restore_script : Text → Text → Text
restore_script db file =
    codes "psql -U temporal -d \""
    ++ (db ++ (codes "\" -v ON_ERROR_STOP=1 -f " ++ (backup_dir ++ (codes "/" ++ file))))

unfoldable pub validate_script : Text → Text
validate_script db =
    codes "psql -U temporal -d \""
    ++ (db ++ codes "\" -t -A -c \"SELECT count(*) FROM pg_stat_user_tables\"")
