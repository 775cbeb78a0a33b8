-- ===== src/Cloud/Docker/Server.antt =====
-- What internal/cloud/docker.go relies on: a PostgreSQL server as databases with an owner, roles and
-- open sessions, which keep a database from being dropped or renamed,
-- the meaning of the provider's statements on it, and a reader of their text.
use tenantflow.Prelude.{
  ℕ, Text, Bool, true, false, ◌≡◌, ◌&&◌, ◌||◌, not, List, [], ◌∷◌, ◌++◌, Option, none, some,
  is_some, codes, text_eq, ◌==◌, if◌then◌else◌,
}
use tenantflow.World.{Result, ok}
use tenantflow.Cloud.Names.{safe_id}
use tenantflow.Cloud.Docker.Client.{Ended}
use tenantflow.Cloud.Docker.Sql.{
  create_database_sql, ensure_role_sql, alter_owner_sql, revoke_connect_sql, drop_role_sql,
  database_exists_sql, owner_sql, public_connect_sql, role_exists_sql, terminate_sql,
  drop_database_sql, rename_database_sql,
}

-- A row of pg_database: its name, the name of its owner, and whether PUBLIC may connect.
pub record DatabaseRow : Type 0 where
  pub name : Text
  pub owner : Text
  pub open_to_public : Bool

pub record Cluster : Type 0 where
  pub databases : List DatabaseRow
  pub roles : List Text
  -- the database of every open session but the provider's own
  pub sessions : List Text

pub data Statement : Type 0 where
  create_database ensure_role revoke_connect drop_role database_exists : Text → Statement
  owner_of public_connect role_exists terminate drop_database : Text → Statement
  alter_owner rename_database : Text → Text → Statement

abbrev pub sql : Statement → Text
sql (create_database db) = create_database_sql db
sql (ensure_role role) = ensure_role_sql role
sql (revoke_connect db) = revoke_connect_sql db
sql (drop_role role) = drop_role_sql role
sql (database_exists db) = database_exists_sql db
sql (owner_of db) = owner_sql db
sql (public_connect db) = public_connect_sql db
sql (role_exists role) = role_exists_sql role
sql (terminate db) = terminate_sql db
sql (drop_database db) = drop_database_sql db
sql (alter_owner db role) = alter_owner_sql db role
sql (rename_database old new) = rename_database_sql old new

-- Every name in the statement is a valid identifier.
abbrev pub IsSafe : Statement → Type 0
IsSafe (create_database db) = safe_id db ≡ true
IsSafe (ensure_role role) = safe_id role ≡ true
IsSafe (revoke_connect db) = safe_id db ≡ true
IsSafe (drop_role role) = safe_id role ≡ true
IsSafe (database_exists db) = safe_id db ≡ true
IsSafe (owner_of db) = safe_id db ≡ true
IsSafe (public_connect db) = safe_id db ≡ true
IsSafe (role_exists role) = safe_id role ≡ true
IsSafe (terminate db) = safe_id db ≡ true
IsSafe (drop_database db) = safe_id db ≡ true
IsSafe (alter_owner db role) = (safe_id db ≡ true) × (safe_id role ≡ true)
IsSafe (rename_database old new) = (safe_id old ≡ true) × (safe_id new ≡ true)

unfoldable pub find_row : Text → List DatabaseRow → Option DatabaseRow
find_row n [] = none
find_row n (d ∷ ds) = if text_eq d.name n then some d else find_row n ds

unfoldable pub change_row : Text → (DatabaseRow → DatabaseRow) → List DatabaseRow → List DatabaseRow
change_row n f [] = []
change_row n f (d ∷ ds) = if text_eq d.name n then f d ∷ ds else d ∷ change_row n f ds

unfoldable pub remove_row : Text → List DatabaseRow → List DatabaseRow
remove_row n [] = []
remove_row n (d ∷ ds) = if text_eq d.name n then ds else d ∷ remove_row n ds

unfoldable pub has_role : Text → List Text → Bool
has_role r [] = false
has_role r (q ∷ qs) = text_eq q r || has_role r qs

unfoldable pub remove_role : Text → List Text → List Text
remove_role r [] = []
remove_role r (q ∷ qs) = if text_eq q r then qs else q ∷ remove_role r qs

unfoldable pub owns : Text → List DatabaseRow → Bool
owns r [] = false
owns r (d ∷ ds) = text_eq d.owner r || owns r ds

unfoldable pub is_connected : Text → List Text → Bool
is_connected n [] = false
is_connected n (m ∷ ms) = text_eq m n || is_connected n ms

-- pg_terminate_backend for each session in the database
unfoldable pub disconnect : Text → List Text → List Text
disconnect n [] = []
disconnect n (m ∷ ms) = let rest = disconnect n ms in if text_eq m n then rest else m ∷ rest

-- The role that psql connects as, the owner of what it creates.
abbrev pub connected_role : Text
connected_role = codes "temporal"

abbrev pub has_database : Text → Cluster → Bool
has_database db c = is_some (find_row db c.databases)

abbrev pub with_role : Text → Cluster → Cluster
with_role r c = record c { roles = if has_role r c.roles then c.roles else r ∷ c.roles }

abbrev pub with_row : Text → (DatabaseRow → DatabaseRow) → Cluster → Cluster
with_row db f c = record c { databases = change_row db f c.databases }

-- psql prints one line.
abbrev pub line : Text → Text
line s = s ++ (10 ∷ [])

abbrev pub bool_line : Bool → Text
bool_line b = if b then codes "t\n" else codes "f\n"

-- What a statement prints and what it makes of the server; none if the server refuses it.
unfoldable pub perform : Statement → Cluster → Option (Text × Cluster)
perform (create_database db) c =
    if has_database db c
    then none
    else some (
      codes "CREATE DATABASE\n",
      record c {
        databases =
            record { name = db; owner = connected_role; open_to_public = true } ∷ c.databases;
      },
    )
perform (ensure_role role) c = some (codes "DO\n", with_role role c)
perform (alter_owner db role) c =
    if has_database db c && has_role role c.roles
    then some (codes "ALTER DATABASE\n", with_row db (λ d. record d { owner = role }) c)
    else none
perform (revoke_connect db) c =
    if has_database db c
    then some (codes "REVOKE\n", with_row db (λ d. record d { open_to_public = false }) c)
    else none
perform (drop_role role) c =
    if owns role c.databases
    then none
    else some (codes "DROP ROLE\n", record c { roles = remove_role role c.roles })
perform (database_exists db) c = some (bool_line (has_database db c), c)
perform (owner_of db) c = elim (find_row db c.databases) [
  | some d ↦ some (line d.owner, c)
  | none ↦ some ([], c)
]
perform (public_connect db) c = elim (find_row db c.databases) [
  | some d ↦ some (bool_line d.open_to_public, c)
  | none ↦ none
]
perform (role_exists role) c = some (bool_line (has_role role c.roles), c)
perform (terminate db) c = some ([], record c { sessions = disconnect db c.sessions })
perform (drop_database db) c =
    if has_database db c && is_connected db c.sessions
    then none
    else some (codes "DROP DATABASE\n", record c { databases = remove_row db c.databases })
perform (rename_database old new) c =
    if (has_database old c && not (is_connected old c.sessions)) && not (has_database new c)
    then some (codes "ALTER DATABASE\n", with_row old (λ d. record d { name = new }) c)
    else none

-- How psql ends: 0 and what the statement prints, or 1 and nothing on the standard output.
abbrev pub psql_reply : Option (Text × Cluster) → Cluster → Result Ended × Cluster
psql_reply none c = (ok (record { stdout = []; exit_code = 1 }), c)
psql_reply (some (out, c')) c = (ok (record { stdout = out; exit_code = 0 }), c')

-- A reader of statements, by the literal text around the names. A name ends at the first quote.
unfoldable pub strip : Text → Text → Option Text
strip [] s = some s
strip (p ∷ ps) [] = none
strip (p ∷ ps) (c ∷ s) = if p == c then strip ps s else none

unfoldable pub name_until : ℕ → Text → Option (Text × Text)
name_until q [] = none
name_until q (c ∷ s) =
    let rest = name_until q s in
    if c == q then some ([], s) else elim rest [ none ↦ none | some (n, r) ↦ some (c ∷ n, r) ]

abbrev pub then_name {ℓ} : {A : Type ℓ} → ℕ → Text → (Text → Text → Option A) → Option A
then_name q s k = elim (name_until q s) [ none ↦ none | some (n, r) ↦ k n r ]

abbrev pub then_literal {ℓ} : {A : Type ℓ} → Text → Text → (Text → Option A) → Option A
then_literal p s k = elim (strip p s) [ none ↦ none | some r ↦ k r ]

abbrev pub ends {ℓ} : {A : Type ℓ} → Text → A → Text → Option A
ends end a r = if text_eq r end then some a else none

infixr 4 ◌<|>◌
abbrev pub ◌<|>◌ {ℓ} : {A : Type ℓ} → Option A → Option A → Option A
none <|> b = b
some a <|> b = some a

-- A text with one name in it.
abbrev pub one_name : Text → ℕ → Text → (Text → Statement) → Text → Option Statement
one_name start q end st s = then_literal start s (λ r. then_name q r (λ n r'. ends end (st n) r'))

abbrev pub read_do : Text → Option Statement
read_do s =
    then_literal (codes "DO $$ BEGIN IF NOT EXISTS (SELECT FROM pg_roles WHERE rolname = '") s (λ r.
      then_name b'\'' r (λ n r'. then_literal (codes ") THEN CREATE ROLE \"") r' (λ r''.
        then_name b'"' r'' (λ m end.
          if text_eq n m then ends (codes "; END IF; END $$;") (ensure_role n) end else none))))

abbrev pub read_alter : Text → Option Statement
read_alter s = then_literal (codes "ALTER DATABASE \"") s (λ r. then_name b'"' r (λ n r'.
    one_name (codes " OWNER TO \"") b'"' [] (alter_owner n) r'
    <|> one_name (codes " RENAME TO \"") b'"' [] (rename_database n) r'))

unfoldable pub read_statement : Text → Option Statement
unfolding strip name_until
read_statement s =
    one_name (codes "CREATE DATABASE \"") b'"' [] create_database s
    <|> read_do s
    <|> read_alter s
    <|> one_name (codes "REVOKE CONNECT ON DATABASE \"") b'"' (codes " FROM PUBLIC") revoke_connect
        s
    <|> one_name (codes "DROP ROLE IF EXISTS \"") b'"' [] drop_role s
    <|> one_name (codes "SELECT EXISTS(SELECT 1 FROM pg_database WHERE datname = '") b'\''
        (codes ")") database_exists s
    <|> one_name
        (codes
          "SELECT COALESCE(r.rolname, '') FROM pg_database d LEFT JOIN pg_roles r ON r.oid = d.datdba WHERE d.datname = '")
        b'\'' [] owner_of s
    <|> one_name (codes "SELECT has_database_privilege('public', '") b'\'' (codes ", 'CONNECT')")
        public_connect s
    <|> one_name (codes "SELECT EXISTS(SELECT 1 FROM pg_roles WHERE rolname = '") b'\'' (codes ")")
        role_exists s
    <|> one_name (codes "SELECT pg_terminate_backend(pid) FROM pg_stat_activity WHERE datname = '")
        b'\'' [] terminate s
    <|> one_name (codes "DROP DATABASE IF EXISTS \"") b'"' [] drop_database s
