-- ===== src/Cloud/Contents.antt =====
-- What databases hold: a view of the provider's state, and which of them each method of
-- internal/cloud/provider.go touches at all.
use tenantflow.Prelude.{Text, ◌≡◌, ◌≢◌, Option}
use tenantflow.Cloud.Names.{tenant_database_name}
use tenantflow.Cloud.Provider.{CloudProvider, IdentityProvider}

-- `none` for a database that does not exist; what a database holds is the text of its dump.
pub record Contents (S : Type 0) : Type 0 where
  pub database : S → Text → Option Text

module _ {S : Type 0} (v : Contents S) where
  -- Nothing but the database `n` differs.
  abbrev pub SameBut : Text → S → S → Type 0
  SameBut n s s' = (m : Text) → m ≢ n → v.database s' m ≡ v.database s m

  abbrev pub Same : S → S → Type 0
  Same s s' = (m : Text) → v.database s' m ≡ v.database s m

-- What a call leaves alone, whatever it answers.
pub record Frames {S : Type 0} (p : CloudProvider S) (v : Contents S) : Type 0 where
  pub created :
      (id : Text) (s : S) → SameBut v (tenant_database_name id) s (p.create_database id s).1
  pub dropped : (id : Text) (s : S) → SameBut v (tenant_database_name id) s (p.drop_database id s).1
  pub role_dropped : (id : Text) (s : S) → Same v s (p.drop_tenant_role id s).1
  pub created_named : (n : Text) (s : S) → SameBut v n s (p.create_database_named n s).1
  pub dropped_named : (n : Text) (s : S) → SameBut v n s (p.drop_database_named n s).1
  pub restored : (n f : Text) (s : S) → SameBut v n s (p.restore_database_from_backup n f s).1
  pub validated : (n : Text) (s : S) → Same v s (p.validate_database n s).1
  pub inspected : (n : Text) (s : S) → Same v s (p.inspect_database n s).1
  pub role_checked : (n : Text) (s : S) → Same v s (p.role_exists n s).1
  pub owned : (n : Text) (s : S) → Same v s (p.ensure_database_ownership n s).1
  pub dumped : (id : Text) (s : S) → Same v s (p.snapshot_database id s).1
  pub renamed_others :
      (from to : Text) (s : S) (m : Text)
      → m ≢ from
      → m ≢ to
      → v.database (p.rename_database from to s).1 m ≡ v.database s m

-- The identity provider stands apart from the databases.
pub record IdentityFrames {S : Type 0} (k : IdentityProvider S) (v : Contents S) : Type 0 where
  pub found : (n : Text) (s : S) → Same v s (k.get_user_by_username n s).1
  pub user_created :
      (n email password first last : Text) (s : S)
      → Same v s (k.create_user n email password first last s).1
  pub role_given : (user role : Text) (s : S) → Same v s (k.assign_role user role s).1
  pub user_deleted : (user : Text) (s : S) → Same v s (k.delete_user user s).1
