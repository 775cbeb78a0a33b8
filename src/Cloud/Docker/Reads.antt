-- ===== src/Cloud/Docker/Reads.antt =====
-- How the reader of Cloud/Docker/Server reads the statements of internal/cloud/docker.go.
use tenantflow.Prelude.{
  ℕ, Text, true, false, ◌≡◌, refl, [], ◌∷◌, ◌++◌, some, arith, codes, text_eq, text_eq_refl,
}
use tenantflow.Cloud.Names.{is_id_char, all_chars, safe_id}
use tenantflow.Cloud.Docker.Sql.{
  create_database_sql, ensure_role_sql, alter_owner_sql, revoke_connect_sql, drop_role_sql,
  database_exists_sql, owner_sql, public_connect_sql, role_exists_sql, terminate_sql,
  drop_database_sql, rename_database_sql,
}
use tenantflow.Cloud.Docker.Server.{
  Statement, create_database, ensure_role, revoke_connect, drop_role, database_exists, owner_of,
  public_connect, role_exists, terminate, drop_database, alter_owner, rename_database, sql, IsSafe,
  strip, name_until, read_statement,
}

name_until-append :
    (q : ℕ) (n r : Text)
    → is_id_char q ≡ false
    → all_chars is_id_char n ≡ true
    → name_until q (n ++ (q ∷ r)) ≡ some (n, r)
unfolding name_until all_chars
name_until-append q [] r hq hn = ground arith
name_until-append q (c ∷ n) r hq hn = ground (arith, name_until-append q n r hq)

id_chars : (n : Text) → safe_id n ≡ true → all_chars is_id_char n ≡ true
id_chars n h = ground arith

quotes_are_no_id_chars : (is_id_char b'"' ≡ false) × (is_id_char b'\'' ≡ false)
unfolding is_id_char
quotes_are_no_id_chars = (refl, refl)

name_until-double :
    (n r : Text) → safe_id n ≡ true → name_until b'"' (n ++ (b'"' ∷ r)) ≡ some (n, r)
name_until-double n r h = name_until-append b'"' n r quotes_are_no_id_chars.0 (id_chars n h)

name_until-single :
    (n r : Text) → safe_id n ≡ true → name_until b'\'' (n ++ (b'\'' ∷ r)) ≡ some (n, r)
name_until-single n r h = name_until-append b'\'' n r quotes_are_no_id_chars.1 (id_chars n h)

-- Each statement whose names are valid identifiers is read back as that statement with those names: no
-- name ends the quotation that it stands in, so that nothing else is performed.
pub read_statement-sql : (st : Statement) → IsSafe st → read_statement (sql st) ≡ some st
unfolding read_statement strip text_eq create_database_sql ensure_role_sql alter_owner_sql
    revoke_connect_sql drop_role_sql database_exists_sql owner_sql public_connect_sql
    role_exists_sql terminate_sql drop_database_sql rename_database_sql
read_statement-sql (create_database db) h = cc (name_until-double db [] h)
read_statement-sql (ensure_role r) h = cc (
  name_until-single r (codes ") THEN CREATE ROLE \"" ++ (r ++ codes "\"; END IF; END $$;")) h,
  name_until-double r (codes "; END IF; END $$;") h,
  text_eq_refl r,
)
read_statement-sql (revoke_connect db) h = cc (name_until-double db (codes " FROM PUBLIC") h)
read_statement-sql (drop_role role) h = cc (name_until-double role [] h)
read_statement-sql (database_exists db) h = cc (name_until-single db (codes ")") h)
read_statement-sql (owner_of db) h = cc (name_until-single db [] h)
read_statement-sql (public_connect db) h = cc (name_until-single db (codes ", 'CONNECT')") h)
read_statement-sql (role_exists role) h = cc (name_until-single role (codes ")") h)
read_statement-sql (terminate db) h = cc (name_until-single db [] h)
read_statement-sql (drop_database db) h = cc (name_until-double db [] h)
read_statement-sql (alter_owner db role) h = cc (
  name_until-double db (codes " OWNER TO \"" ++ (role ++ codes "\"")) h.0,
  name_until-double role [] h.1,
)
read_statement-sql (rename_database old new) h = cc (
  name_until-double old (codes " RENAME TO \"" ++ (new ++ codes "\"")) h.0,
  name_until-double new [] h.1,
)
