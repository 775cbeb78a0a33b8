-- ===== src/Cloud/Docker/Promised.antt =====
-- What the methods of internal/cloud/docker.go that send statements promise, by the databases and
-- roles of the server before and after.
use tenantflow.Prelude.{
  Text, ⊤, Bool, true, false, not, ◌&&◌, [], ◌∷◌, Option, none, some, if◌then◌else◌,
}
use tenantflow.Model.{DatabaseState}
use tenantflow.World.{ok, err, other}
use tenantflow.Call.{Call}
use tenantflow.Strings.{trim_space}
use tenantflow.Cloud.Names.{safe_id, role_of, tenant_database_name}
use tenantflow.Cloud.Docker.Server.{
  Cluster, DatabaseRow, find_row, has_database, has_role, remove_role, remove_row, owns, with_role,
  with_row, connected_role, is_connected, disconnect,
}

-- A valid identifier whose owner role, the name without its suffix, is one as well.
abbrev pub has_owner_role : Text → Bool
has_owner_role db = safe_id db && safe_id (role_of db)

-- The row of a database that is isolated: its role owns it and PUBLIC may not connect.
abbrev pub isolated : Text → DatabaseRow → DatabaseRow
isolated role d = record d { owner = role; open_to_public = false }

-- The role exists, and the database, if there is one, is isolated.
unfoldable pub ensure_database_ownership : Text → Call Cluster ⊤
ensure_database_ownership db c =
    if has_owner_role db
    then (let owned = with_role (role_of db) c in
        if has_database db c
        then (ok tt, with_row db (isolated (role_of db)) owned)
        else (err other, owned))
    else (err other, c)

abbrev pub fresh_row : Text → DatabaseRow
fresh_row db = record { name = db; owner = connected_role; open_to_public = true }

-- A database that is there is an error; a new one is isolated, unless no role can be derived.
unfoldable pub create_database_named : Text → Call Cluster ⊤
create_database_named db c =
    if safe_id db && not (has_database db c)
    then (if safe_id (role_of db)
        then (
          ok tt,
          record (with_role (role_of db) c) {
            databases = isolated (role_of db) (fresh_row db) ∷ c.databases;
          },
        )
        else (err other, record c { databases = fresh_row db ∷ c.databases }))
    else (err other, c)

-- The sessions in the database are ended, so that they do not keep it from being dropped. Dropping a
-- database that is not there succeeds.
unfoldable pub drop_database_named : Text → Call Cluster ⊤
drop_database_named db c =
    if safe_id db
    then (
      ok tt,
      record c { databases = remove_row db c.databases; sessions = disconnect db c.sessions },
    )
    else (err other, c)

-- The role of a tenant goes unless it still owns a database.
unfoldable pub drop_tenant_role : Text → Call Cluster ⊤
drop_tenant_role id c =
    if safe_id id && not (owns (tenant_database_name id) c.databases)
    then (ok tt, record c { roles = remove_role (tenant_database_name id) c.roles })
    else (err other, c)

-- A database with open sessions is not renamed, and they are not ended.
unfoldable pub rename_database : Text → Text → Call Cluster ⊤
rename_database old new c =
    if (safe_id old && safe_id new)
      && ((has_database old c && not (is_connected old c.sessions)) && not (has_database new c))
    then (ok tt, with_row old (λ d. record d { name = new }) c)
    else (err other, c)

abbrev pub state_of_row : Option DatabaseRow → DatabaseState
state_of_row none = record { exists = false; owner_role = []; public_connect = false }
state_of_row (some d) = record {
  exists = true;
  owner_role = trim_space d.owner;
  public_connect = d.open_to_public;
}

unfoldable pub inspect_database : Text → Call Cluster DatabaseState
inspect_database db c =
    if safe_id db then (ok (state_of_row (find_row db c.databases)), c) else (err other, c)

unfoldable pub role_exists : Text → Call Cluster Bool
role_exists role c = if safe_id role then (ok (has_role role c.roles), c) else (err other, c)
