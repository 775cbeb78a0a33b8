-- ===== src/Cloud/Names/Valid.antt =====
-- Which tenant IDs give names that the provider accepts.
use tenantflow.Prelude.{
  ℕ, Text, Bool, true, ◌≡◌, refl, ◌↔◌, ◌&&◌, [], ◌∷◌, ◌++◌, ◌≤◌, arith, length, length-append,
  codes,
}
use tenantflow.Cloud.Names.{
  is_id_char, is_file_char, all_chars, safe_id, safe_file, tenant_id_pattern, name_prefix,
  tenant_database_name, new_suffix, temp_suffix, backup_name,
}

all_chars-append :
    (p : ℕ → Bool) (s t : Text) → all_chars p (s ++ t) ≡ (all_chars p s && all_chars p t)
unfolding all_chars
all_chars-append p [] t = refl
all_chars-append p (c ∷ s) t = ground (arith, all_chars-append p s t)

all_chars-weaken : (s : Text) → all_chars is_id_char s ≡ true → all_chars is_file_char s ≡ true
unfolding all_chars is_file_char
all_chars-weaken [] h = refl
all_chars-weaken (c ∷ s) h = ground (arith, all_chars-weaken s)

id_chars_of_literals :
    (all_chars is_id_char name_prefix ≡ true)
    × (all_chars is_id_char new_suffix ≡ true)
    × (all_chars is_id_char temp_suffix ≡ true)
unfolding all_chars is_id_char
id_chars_of_literals = (refl, refl, refl)

-- A tenant ID passes the pattern exactly when it is not empty and the name of its database is a
-- valid identifier: the bound of 56 in the pattern is the provider's 63 less the prefix.
pub safe_id-tenant_database_name :
    (id : Text)
    → (tenant_id_pattern id ≡ true) ↔ ((safe_id (tenant_database_name id) ≡ true) × (1 ≤ length id))
unfolding tenant_database_name
safe_id-tenant_database_name id = ground (
  arith,
  length-append name_prefix id,
  all_chars-append is_id_char name_prefix id,
  id_chars_of_literals,
)

file_chars_of_literals :
    (all_chars is_file_char (codes "_") ≡ true) × (all_chars is_file_char (codes ".sql") ≡ true)
unfolding all_chars is_file_char
file_chars_of_literals = (refl, refl)

-- A snapshot's file name passes the provider's own check of file names, for every ID that the
-- handler admits, if the time is printed in at most 19 bytes of the class.
safe_file-backup_name :
    (id stamp : Text)
    → tenant_id_pattern id ≡ true
    → all_chars is_file_char stamp ≡ true
    → length stamp ≤ 19
    → safe_file (backup_name id stamp) ≡ true
unfolding backup_name
safe_file-backup_name id stamp h chars short = ground (
  arith,
  length-append id (codes "_" ++ (stamp ++ codes ".sql")),
  length-append stamp (codes ".sql"),
  all_chars-append is_file_char id (codes "_" ++ (stamp ++ codes ".sql")),
  all_chars-append is_file_char (codes "_") (stamp ++ codes ".sql"),
  all_chars-append is_file_char stamp (codes ".sql"),
  all_chars-weaken id,
  file_chars_of_literals,
)
