-- ===== src/Auth.antt =====
-- internal/auth and internal/router/router.go: the bearer token, the role, and which of them each
-- route asks for. Verifying a token (OIDC against Keycloak) is a parameter.
pub mod Access
use tenantflow.Prelude.{
  ℕ, Text, ⊤, Bool, true, false, List, [], ◌∷◌, Option, none, some, codes, text_eq, ◌||◌, not, ◌==◌,
  if◌then◌else◌,
}
use tenantflow.World.{World, Result, ok, err, other}
use tenantflow.Strings.{trim_space, to_lower}
use tenantflow.Handlers.{Reply, refuse}

-- The fields of auth.Claims that are read.
pub record Claims : Type 0 where
  pub sub : Text
  pub roles : List Text

-- The values that RequireAuth puts into the request's context.
pub record RequestContext : Type 0 where
  pub user_id : Option Text
  pub user_roles : Option (List Text)

-- A request: the Authorization header, empty if there is none, and its context.
pub record Request : Type 0 where
  pub authorization : Text
  pub context : RequestContext

abbrev pub Handler : Type 0 → Type 0
Handler S = Request → World S → Reply × World S

-- strings.SplitN(s, " ", 2), with a second part
unfoldable pub split_space : Text → Option (Text × Text)
split_space [] = none
split_space (c ∷ s) =
    let rest = split_space s in
    if c == 32 then some ([], s) else elim rest [ none ↦ none | some (a, b) ↦ some (c ∷ a, b) ]

-- strings.EqualFold with "Bearer", whose letters only letters of ASCII fold to.
abbrev pub is_bearer : Text → Bool
is_bearer s = text_eq (to_lower s) (codes "bearer")

abbrev pub non_empty : Text → Result Text
non_empty [] = err other
non_empty (c ∷ s) = ok (c ∷ s)

unfoldable pub extract_token : Text → Result Text
unfolding split_space
extract_token authorization = elim (split_space authorization) [
  | none ↦ err other
  | some (scheme, rest) ↦ if is_bearer scheme then non_empty (trim_space rest) else err other
]

-- GetUserRoles
abbrev pub get_user_roles : RequestContext → List Text
get_user_roles c = elim c.user_roles [ some roles ↦ roles | none ↦ [] ]

unfoldable pub has_role : Text → List Text → Bool
has_role required [] = false
has_role required (r ∷ rs) = text_eq r required || has_role required rs

module _ {S : Type 0} (verify_token : Text → Result Claims) where
  unfoldable pub require_auth : Handler S → Handler S
  unfolding extract_token
  require_auth next r w = elim (extract_token r.authorization) [
    | err e ↦ (refuse 401, w)
    | ok token ↦ elim (verify_token token) [
      | err e ↦ (refuse 401, w)
      | ok claims ↦
          next
            (record r {
              context = record { user_id = some claims.sub; user_roles = some claims.roles };
            })
            w
    ]
  ]

unfoldable pub require_role : {S : Type 0} → Text → Handler S → Handler S
unfolding has_role
require_role required next r w =
    if has_role required (get_user_roles r.context) then next r w else (refuse 403, w)

-- What the routes lead to: handler.Status and the methods of TenantHandler.
pub data Endpoint : Type 0 where
  status list_tenants get_tenant list_events list_backups cost_tenant get_tenant_quota : Endpoint
  create_tenant delete_tenant cancel_tenant_delete upgrade_tenant migrate_tenant : Endpoint
  backup_tenant restore_tenant reconcile_tenant list_failed_runs retry_tenant : Endpoint

-- The patterns of router.New.
abbrev pub pattern_of : Endpoint → Text
pattern_of status = codes "GET /status"
pattern_of list_tenants = codes "GET /api/v1/tenants"
pattern_of get_tenant = codes "GET /api/v1/tenants/{tenantID}"
pattern_of list_events = codes "GET /api/v1/tenants/{tenantID}/events"
pattern_of list_backups = codes "GET /api/v1/tenants/{tenantID}/backups"
pattern_of cost_tenant = codes "GET /api/v1/tenants/{tenantID}/cost"
pattern_of get_tenant_quota = codes "GET /api/v1/tenants/{tenantID}/quota"
pattern_of create_tenant = codes "POST /api/v1/tenants"
pattern_of delete_tenant = codes "DELETE /api/v1/tenants/{tenantID}"
pattern_of cancel_tenant_delete = codes "POST /api/v1/tenants/{tenantID}/cancel-delete"
pattern_of upgrade_tenant = codes "POST /api/v1/tenants/{tenantID}/upgrade"
pattern_of migrate_tenant = codes "POST /api/v1/tenants/{tenantID}/migrate"
pattern_of backup_tenant = codes "POST /api/v1/tenants/{tenantID}/backup"
pattern_of restore_tenant = codes "POST /api/v1/tenants/{tenantID}/restore"
pattern_of reconcile_tenant = codes "POST /api/v1/tenants/{tenantID}/reconcile"
pattern_of list_failed_runs = codes "GET /api/v1/failed-runs"
pattern_of retry_tenant = codes "POST /api/v1/tenants/{tenantID}/retry"

abbrev pub platform_admin : Text
platform_admin = codes "platform-admin"

module _ {S : Type 0} (verify_token : Text → Result Claims) where
  abbrev pub reader : Handler S → Handler S
  reader h = require_auth verify_token h

  abbrev pub admin : Handler S → Handler S
  admin h = require_auth verify_token (require_role platform_admin h)

  -- The handler that router.New registers under the pattern of the endpoint.
  unfoldable pub registered : (Endpoint → Handler S) → Endpoint → Handler S
  unfolding require_auth require_role
  registered h status = h status
  registered h list_tenants = reader (h list_tenants)
  registered h get_tenant = reader (h get_tenant)
  registered h list_events = reader (h list_events)
  registered h list_backups = reader (h list_backups)
  registered h cost_tenant = reader (h cost_tenant)
  registered h get_tenant_quota = reader (h get_tenant_quota)
  registered h create_tenant = admin (h create_tenant)
  registered h delete_tenant = admin (h delete_tenant)
  registered h cancel_tenant_delete = admin (h cancel_tenant_delete)
  registered h upgrade_tenant = admin (h upgrade_tenant)
  registered h migrate_tenant = admin (h migrate_tenant)
  registered h backup_tenant = admin (h backup_tenant)
  registered h restore_tenant = admin (h restore_tenant)
  registered h reconcile_tenant = admin (h reconcile_tenant)
  registered h list_failed_runs = admin (h list_failed_runs)
  registered h retry_tenant = admin (h retry_tenant)
