-- ===== src/Cloud/Provider.antt =====
-- CloudProvider of internal/cloud/provider.go and IdentityProvider of internal/identity/provider.go:
-- what the activities call. Behind them stand Docker, PostgreSQL and Keycloak, whose state is `S`.
use tenantflow.Prelude.{Text, ⊤, Bool, Option}
use tenantflow.Model.{DatabaseState}
use tenantflow.World.{Result}

pub record CloudProvider (S : Type 0) : Type 0 where
  -- of the database tenant_<id>, and its role
  pub create_database : Text → S → Result ⊤ × S
  pub drop_database : Text → S → Result ⊤ × S
  pub drop_tenant_role : Text → S → Result ⊤ × S
  -- of a database by its name
  pub create_database_named : Text → S → Result ⊤ × S
  pub drop_database_named : Text → S → Result ⊤ × S
  -- dumps tenant_<id> to a file and returns the file's name
  pub snapshot_database : Text → S → Result Text × S
  -- the database, then the file
  pub restore_database_from_backup : Text → Text → S → Result ⊤ × S
  pub validate_database : Text → S → Result ⊤ × S
  -- from, then to
  pub rename_database : Text → Text → S → Result ⊤ × S
  pub inspect_database : Text → S → Result DatabaseState × S
  pub role_exists : Text → S → Result Bool × S
  pub ensure_database_ownership : Text → S → Result ⊤ × S

pub record IdentityProvider (S : Type 0) : Type 0 where
  -- the user's id, if there is a user of that name
  pub get_user_by_username : Text → S → Result (Option Text) × S
  -- username, email, password, first name, last name
  pub create_user : Text → Text → Text → Text → Text → S → Result Text × S
  -- user id, role
  pub assign_role : Text → Text → S → Result ⊤ × S
  pub delete_user : Text → S → Result ⊤ × S
