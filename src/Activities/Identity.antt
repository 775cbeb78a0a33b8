-- ===== src/Activities/Identity.antt =====
-- internal/activities/identity.go
use tenantflow.Prelude.{Text, ⊤, Option, none, some, ◌++◌, codes}
use tenantflow.World.{Act, ◌>>=◌, ◌>>◌, pure, external}
use tenantflow.Cloud.Provider.{IdentityProvider}

unfoldable pub tenant_identity_username : Text → Text
tenant_identity_username id = id ++ codes "-admin"

module _ {S : Type 0} (k : IdentityProvider S) where
  -- The id of the user that the probe found, or else of a new one.
  unfoldable pub create_if_missing : Text → Option Text → Act S Text
  create_if_missing id none =
      let username = tenant_identity_username id in
      external (
        k.create_user username (username ++ codes "@tenantflow.local") (id ++ codes "-pass") id
          (codes "Admin"))
  create_if_missing id (some user_id) = pure user_id

  unfoldable pub provision_tenant_identity : Text → Act S Text
  unfolding create_if_missing
  provision_tenant_identity id = do
    found ← external (k.get_user_by_username (tenant_identity_username id))
    user_id ← create_if_missing id found
    external (k.assign_role user_id (codes "platform-operator"))
    pure user_id

  unfoldable pub delete_tenant_identity : Text → Act S ⊤
  delete_tenant_identity user_id = external (k.delete_user user_id)

  unfoldable pub delete_if_found : Option Text → Act S ⊤
  unfolding delete_tenant_identity
  delete_if_found none = pure tt
  delete_if_found (some user_id) = delete_tenant_identity user_id

  unfoldable pub delete_tenant_identity_by_tenant : Text → Act S ⊤
  unfolding delete_if_found
  delete_tenant_identity_by_tenant id = do
    found ← external (k.get_user_by_username (tenant_identity_username id))
    delete_if_found found
