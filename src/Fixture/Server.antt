-- ===== src/Fixture/Server.antt =====
-- A server that keeps named databases, dump files and users, and answers as the comments of
-- internal/cloud/provider.go promise.
use tenantflow.Prelude.{
  Text, ⊤, Bool, true, false, List, [], ◌∷◌, Option, none, some, is_some, text_eq, codes,
  if◌then◌else◌,
}
use tenantflow.Model.{DatabaseState}
use tenantflow.World.{Result, ok, err, other}
use tenantflow.Cloud.Names.{tenant_database_name, role_of, backup_name}
use tenantflow.Cloud.Provider.{CloudProvider, IdentityProvider}

-- What a database holds: the file that was restored into it last, none if it is empty.
pub record Database : Type 0 where
  pub name : Text
  pub owner : Text
  pub open_to_public : Bool
  pub holds : Option Text

pub record Server : Type 0 where
  pub databases : List Database
  pub roles : List Text
  pub files : List Text
  pub users : List Text
  -- renames fail
  pub no_rename : Bool

abbrev pub find_db : Text → List Database → Option Database
find_db n [] = none
find_db n (d ∷ ds) = if text_eq d.name n then some d else find_db n ds

abbrev pub drop_db : Text → List Database → List Database
drop_db n [] = []
drop_db n (d ∷ ds) = if text_eq d.name n then drop_db n ds else d ∷ drop_db n ds

abbrev pub has : Text → List Text → Bool
has n [] = false
has n (m ∷ ms) = if text_eq m n then true else has n ms

abbrev pub without : Text → List Text → List Text
without n [] = []
without n (m ∷ ms) = if text_eq m n then without n ms else m ∷ without n ms

abbrev pub with_databases : Server → List Database → Server
with_databases s ds = record s { databases = ds }

abbrev pub create_db : Text → Server → Result ⊤ × Server
create_db n s = if is_some (find_db n s.databases) then (err other, s) else (
  ok tt,
  record s {
    databases =
        record { name = n; owner = role_of n; open_to_public = false; holds = none } ∷ s.databases;
    roles = role_of n ∷ s.roles;
  },
)

abbrev pub restore_db : Text → Text → Server → Result ⊤ × Server
restore_db n file s = elim (find_db n s.databases) [
  | none ↦ (err other, s)
  | some d ↦
      if has file s.files
      then (ok tt, with_databases s (record d { holds = some file } ∷ drop_db n s.databases))
      else (err other, s)
]

abbrev pub own_db : Text → Server → Result ⊤ × Server
own_db n s = elim (find_db n s.databases) [
  | none ↦ (err other, s)
  | some d ↦ (
    ok tt,
    record s {
      databases = record d { owner = role_of n; open_to_public = false } ∷ drop_db n s.databases;
      roles = role_of n ∷ s.roles;
    },
  )
]

abbrev pub rename_db : Text → Text → Server → Result ⊤ × Server
rename_db from to s = if s.no_rename then (err other, s) else elim (find_db from s.databases) [
  | none ↦ (err other, s)
  | some d ↦ (ok tt, with_databases s (record d { name = to } ∷ drop_db from s.databases))
]

abbrev pub dump_db : Text → Server → Result Text × Server
dump_db id s =
    let file = backup_name id (codes "20260101-000000") in
    if is_some (find_db (tenant_database_name id) s.databases)
    then (ok file, record s { files = file ∷ s.files })
    else (err other, s)

abbrev pub state_of : Option Database → DatabaseState
state_of none = record { exists = false; owner_role = []; public_connect = false }
state_of (some d) = record {
  exists = true;
  owner_role = d.owner;
  public_connect = d.open_to_public;
}

abbrev pub server_cloud : CloudProvider Server
server_cloud = record {
  create_database = λ id s. create_db (tenant_database_name id) s;
  drop_database = λ id s. (ok tt, with_databases s (drop_db (tenant_database_name id) s.databases));
  drop_tenant_role =
      λ id s. (ok tt, record s { roles = without (tenant_database_name id) s.roles });
  create_database_named = create_db;
  drop_database_named = λ n s. (ok tt, with_databases s (drop_db n s.databases));
  snapshot_database = dump_db;
  restore_database_from_backup = restore_db;
  validate_database = λ n s. (if is_some (find_db n s.databases) then ok tt else err other, s);
  rename_database = rename_db;
  inspect_database = λ n s. (ok (state_of (find_db n s.databases)), s);
  role_exists = λ n s. (ok (has n s.roles), s);
  ensure_database_ownership = own_db;
}

-- A user's id is the user's name.
abbrev pub server_identity : IdentityProvider Server
server_identity = record {
  get_user_by_username = λ n s. (ok (if has n s.users then some n else none), s);
  create_user = λ n email password first last s. (ok n, record s { users = n ∷ s.users });
  assign_role = λ user role s. (ok tt, s);
  delete_user = λ user s. (ok tt, record s { users = without user s.users });
}
