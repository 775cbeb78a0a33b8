-- ===== src/Cloud/Names.antt =====
-- The identifiers of internal/cloud/docker.go, with the names that internal/activities and
-- internal/handler derive: what a tenant's databases, role and backup files are called.
pub mod Valid
pub mod Distinct
use tenantflow.Prelude.{
  ℕ, Text, Bool, true, false, ◌&&◌, ◌||◌, ◌-◌, take, drop, List, [], ◌∷◌, ◌++◌, zero, suc, leb,
  ◌==◌, codes, length, text_eq, if◌then◌else◌,
}
use tenantflow.World.{Result, ok, err, other}

-- [a-zA-Z0-9_-]
unfoldable pub is_id_char : ℕ → Bool
is_id_char c =
    leb b'a' c && leb c b'z'
    || leb b'A' c && leb c b'Z'
    || leb b'0' c && leb c b'9'
    || c == b'_'
    || c == b'-'

-- [a-zA-Z0-9_.-]
unfoldable pub is_file_char : ℕ → Bool
unfolding is_id_char
is_file_char c = is_id_char c || c == b'.'

unfoldable pub all_chars : (ℕ → Bool) → Text → Bool
all_chars p [] = true
all_chars p (c ∷ s) = p c && all_chars p s

-- `^[class]{1,max}$`
abbrev pub bounded_match : (ℕ → Bool) → ℕ → Text → Bool
bounded_match p max s = leb 1 (length s) && leb (length s) max && all_chars p s

-- safeID
abbrev pub safe_id : Text → Bool
safe_id = bounded_match is_id_char 63

-- safeFile
abbrev pub safe_file : Text → Bool
safe_file = bounded_match is_file_char 80

-- tenantIDPattern of internal/handler/tenant.go
abbrev pub tenant_id_pattern : Text → Bool
tenant_id_pattern = bounded_match is_id_char 56

-- validateIdentifier
abbrev pub validate_identifier : Text → Result (Unit {0})
validate_identifier s = if safe_id s then ok tt else err other

abbrev pub name_prefix : Text
name_prefix = codes "tenant_"

abbrev pub new_suffix : Text
new_suffix = codes "_new"

abbrev pub temp_suffix : Text
temp_suffix = codes "_temp"

-- TenantDatabaseName; the same name is the tenant's owner role.
unfoldable pub tenant_database_name : Text → Text
tenant_database_name id = name_prefix ++ id

-- newDBName of internal/activities/migrate.go
unfoldable pub new_db_name : Text → Text
new_db_name id = name_prefix ++ (id ++ new_suffix)

-- tempDBName of internal/activities/backup.go
unfoldable pub temp_db_name : Text → Text
temp_db_name id = name_prefix ++ (id ++ temp_suffix)

-- strings.HasSuffix and strings.TrimSuffix
unfoldable pub has_suffix : Text → Text → Bool
has_suffix s suffix =
    leb (length suffix) (length s) && text_eq (drop (length s - length suffix) s) suffix

unfoldable pub trim_suffix : Text → Text → Text
trim_suffix s suffix = if has_suffix s suffix then take (length s - length suffix) s else s

-- tenantOwnerRole: the switch on the suffix, then the check of what is left.
unfoldable pub role_of : Text → Text
role_of name =
    if has_suffix name new_suffix
    then trim_suffix name new_suffix
    else if has_suffix name temp_suffix
    then trim_suffix name temp_suffix
    else name

unfoldable pub tenant_owner_role : Text → Result Text
unfolding role_of
tenant_owner_role name = if safe_id (role_of name) then ok (role_of name) else err other

-- The file of a snapshot: SnapshotDatabase, with the time as it prints it.
unfoldable pub backup_name : Text → Text → Text
backup_name id stamp = id ++ (codes "_" ++ (stamp ++ codes ".sql"))
