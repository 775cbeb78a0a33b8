-- ===== src/Auth/Access.antt =====
-- Who reaches a handler behind the routes of internal/router/router.go.
use tenantflow.Prelude.{
  Text, Bool, true, false, ◌≡◌, refl, not, ◌||◌, ◌&&◌, codes, arith, if◌then◌else◌, some,
}
use tenantflow.World.{World, Result, ok, err}
use tenantflow.Strings.{starts_with}
use tenantflow.Handlers.{refuse}
use tenantflow.Auth
use tenantflow.Auth.{
  Claims, Request, Handler, Endpoint, extract_token, has_role, require_auth, require_role,
  pattern_of, platform_admin, registered,
}

-- The access that the comment of the router promises, read off the pattern: what is not a GET changes
-- something, and the failed runs are for operators.
unfoldable pub is_public : Text → Bool
is_public pattern = starts_with pattern (codes "GET /status")

unfoldable pub is_operator_only : Text → Bool
is_operator_only pattern =
    not (starts_with pattern (codes "GET "))
    || starts_with pattern (codes "GET /api/v1/failed-runs")

-- The claims of the request's bearer token, if it has one that is verified.
unfoldable pub claims_of : (Text → Result Claims) → Request → Result Claims
claims_of verify r = elim (extract_token r.authorization) [
  | ok token ↦ verify token
  | err e ↦ err e
]

-- The request as the handler sees it.
abbrev pub identified : Claims → Request → Request
identified c r = record r { context = record { user_id = some c.sub; user_roles = some c.roles } }

-- What the router promises of a request.
unfoldable pub promised : {S : Type 0} → (Text → Result Claims) → Handler S → Text → Handler S
promised verify h pattern r w = if is_public pattern then h r w else elim (claims_of verify r) [
  | err e ↦ (refuse 401, w)
  | ok c ↦
      if is_operator_only pattern && not (has_role platform_admin c.roles)
      then (refuse 403, w)
      else h (identified c r) w
]

module _ {S : Type 0} (verify : Text → Result Claims) (h : Handler S) (r : Request)
    (w : World S) where
  reader-promised :
      (pattern : Text)
      → is_public pattern ≡ false
      → is_operator_only pattern ≡ false
      → Auth.reader verify h r w ≡ promised verify h pattern r w
  unfolding promised require_auth claims_of
  reader-promised pattern p o = ground (arith, p, o)

  admin-promised :
      (pattern : Text)
      → is_public pattern ≡ false
      → is_operator_only pattern ≡ true
      → Auth.admin verify h r w ≡ promised verify h pattern r w
  unfolding promised require_auth require_role claims_of
  admin-promised pattern p o = ground (arith, p, o)

-- Every route asks for what its pattern promises: /status for nothing; every other for a token that
-- is verified, else the answer is 401 and nothing happens; and what is not a GET, and the failed runs,
-- also for the role platform-admin, else the answer is 403 and nothing happens. The handler sees the
-- subject and the roles of the token, not those of the request.
pub registered-promised :
    {S : Type 0} (verify : Text → Result Claims) (h : Endpoint → Handler S) (e : Endpoint)
    (r : Request) (w : World S)
    → registered verify h e r w ≡ promised verify (h e) (pattern_of e) r w
unfolding registered promised is_public is_operator_only starts_with
registered-promised verify h Endpoint.status r w = refl
registered-promised verify h Endpoint.list_tenants r w =
    reader-promised verify (h Endpoint.list_tenants) r w (pattern_of Endpoint.list_tenants) refl
      refl
registered-promised verify h Endpoint.get_tenant r w =
    reader-promised verify (h Endpoint.get_tenant) r w (pattern_of Endpoint.get_tenant) refl refl
registered-promised verify h Endpoint.list_events r w =
    reader-promised verify (h Endpoint.list_events) r w (pattern_of Endpoint.list_events) refl refl
registered-promised verify h Endpoint.list_backups r w =
    reader-promised verify (h Endpoint.list_backups) r w (pattern_of Endpoint.list_backups) refl
      refl
registered-promised verify h Endpoint.cost_tenant r w =
    reader-promised verify (h Endpoint.cost_tenant) r w (pattern_of Endpoint.cost_tenant) refl refl
registered-promised verify h Endpoint.get_tenant_quota r w =
    reader-promised verify (h Endpoint.get_tenant_quota) r w (pattern_of Endpoint.get_tenant_quota)
      refl refl
registered-promised verify h Endpoint.create_tenant r w =
    admin-promised verify (h Endpoint.create_tenant) r w (pattern_of Endpoint.create_tenant) refl
      refl
registered-promised verify h Endpoint.delete_tenant r w =
    admin-promised verify (h Endpoint.delete_tenant) r w (pattern_of Endpoint.delete_tenant) refl
      refl
registered-promised verify h Endpoint.cancel_tenant_delete r w =
    admin-promised verify (h Endpoint.cancel_tenant_delete) r w
      (pattern_of Endpoint.cancel_tenant_delete) refl refl
registered-promised verify h Endpoint.upgrade_tenant r w =
    admin-promised verify (h Endpoint.upgrade_tenant) r w (pattern_of Endpoint.upgrade_tenant) refl
      refl
registered-promised verify h Endpoint.migrate_tenant r w =
    admin-promised verify (h Endpoint.migrate_tenant) r w (pattern_of Endpoint.migrate_tenant) refl
      refl
registered-promised verify h Endpoint.backup_tenant r w =
    admin-promised verify (h Endpoint.backup_tenant) r w (pattern_of Endpoint.backup_tenant) refl
      refl
registered-promised verify h Endpoint.restore_tenant r w =
    admin-promised verify (h Endpoint.restore_tenant) r w (pattern_of Endpoint.restore_tenant) refl
      refl
registered-promised verify h Endpoint.reconcile_tenant r w =
    admin-promised verify (h Endpoint.reconcile_tenant) r w (pattern_of Endpoint.reconcile_tenant)
      refl refl
registered-promised verify h Endpoint.list_failed_runs r w =
    admin-promised verify (h Endpoint.list_failed_runs) r w (pattern_of Endpoint.list_failed_runs)
      refl refl
registered-promised verify h Endpoint.retry_tenant r w =
    admin-promised verify (h Endpoint.retry_tenant) r w (pattern_of Endpoint.retry_tenant) refl refl
