-- ===== src/Keycloak.antt =====
-- KeycloakProvider of internal/identity/keycloak.go: the cached admin token and the requests. HTTP,
-- JSON and the clock are parameters; `S` is the state of the network and of the Keycloak server.
pub mod Retry
pub mod Unauthorized
use tenantflow.Prelude.{
  ℕ, Text, ⊤, Bool, true, false, ◌+◌, ◌-◌, ◌*◌, ◌%◌, ◌^◌, ◌&&◌, ◌||◌, ◌++◌, List, [], ◌∷◌, Option,
  none, some, codes, drop, length, ltb, leb, ◌==◌, if◌then◌else◌,
}
use tenantflow.World.{Result, ok, err, other}
use tenantflow.Call.{Call, return, fail, ◌>>=◌, ◌>>◌}
use tenantflow.Cloud.Provider.{IdentityProvider}

-- What json.Marshal or the form encoding gets.
pub data Body : Type 0 where
  no_body : Body
  -- grant_type password: client_id, username, password
  password_grant : Text → Text → Text → Body
  -- username, email, firstName, lastName; enabled and emailVerified are true
  new_user : Text → Text → Text → Text → Body
  -- a password that is not temporary
  new_password : Text → Body
  -- one role: id, name
  role_mapping : Text → Text → Body

pub record HttpRequest : Type 0 where
  pub method : Text
  pub url : Text
  pub bearer : Option Text
  pub body : Body

pub record HttpResponse : Type 0 where
  pub status : ℕ
  -- the Location header, empty if there is none
  pub location : Text
  pub content : Text

pub record Http (S : Type 0) : Type 0 where
  pub send : HttpRequest → Call S HttpResponse
  -- nanoseconds
  pub now : S → ℕ
  -- access_token and expires_in, a pattern of 64 bits
  pub decode_token : Text → Result (Text × ℕ)
  -- the ids of the listed users
  pub decode_users : Text → Result (List Text)
  -- id and name of a role
  pub decode_role : Text → Result (Text × Text)
  -- url.QueryEscape
  pub query_escape : Text → Text

pub record KeycloakConfig : Type 0 where
  pub server_url : Text
  pub realm : Text
  pub admin_user : Text
  pub admin_pass : Text

-- The provider's fields that change, beside the outside.
pub record Cached (S : Type 0) : Type 0 where
  pub admin_token : Text
  pub token_expires_at : ℕ
  pub net : S

-- `t.Add(d)` for a duration given as a pattern of 64 bits
abbrev pub add_duration : ℕ → ℕ → ℕ
add_duration t d = if ltb d (2 ^ 63) then t + d else t - (2 ^ 64 - d)

abbrev pub seconds : ℕ → ℕ
seconds n = (n * 1000000000) % 2 ^ 64

abbrev is_empty : Text → Bool
is_empty [] = true
is_empty (_ ∷ _) = false

abbrev pub first_user : List Text → Option Text
first_user [] = none
first_user (id ∷ _) = some id

-- `location[len(location)-36:]` of a non-empty text. A shorter one is a panic, which the worker
-- turns into an error of the activity.
unfoldable pub user_id_of : Text → Result Text
user_id_of location =
    if leb 36 (length location) then ok (drop (length location - 36) location) else err other

module _ {S : Type 0} (http : Http S) (k : KeycloakConfig) where
  unfoldable pub send : HttpRequest → Call (Cached S) HttpResponse
  send r c = let (a, s) = http.send r c.net in (a, record c { net = s })

  unfoldable pub token_is_fresh : Cached S → Bool
  token_is_fresh c = elim (is_empty c.admin_token) [
    | true ↦ false
    | false ↦ ltb (add_duration (http.now c.net) (seconds 30)) c.token_expires_at
  ]

  abbrev pub grant_request : HttpRequest
  grant_request = record {
    method = codes "POST";
    url = k.server_url ++ codes "/realms/master/protocol/openid-connect/token";
    bearer = none;
    body = password_grant (codes "admin-cli") k.admin_user k.admin_pass;
  }

  -- `if resp.StatusCode != want { return error }`
  abbrev pub expect : ℕ → HttpResponse → Call (Cached S) ⊤
  expect want resp = if resp.status == want then return tt else fail other

  abbrev pub from : {A : Type 0} → Result A → Call (Cached S) A
  from r c = (r, c)

  abbrev pub store_token : Text × ℕ → Call (Cached S) Text
  store_token (token, expires_in) c = (
    ok token,
    record c {
      admin_token = token;
      token_expires_at = add_duration (http.now c.net) (seconds expires_in);
    },
  )

  -- getAdminToken past its cache
  unfoldable pub grant_token : Call (Cached S) Text
  unfolding send
  grant_token = do
    resp ← send grant_request
    expect 200 resp
    granted ← from (http.decode_token resp.content)
    store_token granted

  unfoldable pub get_admin_token : Call (Cached S) Text
  unfolding token_is_fresh grant_token
  get_admin_token c = if token_is_fresh c then (ok c.admin_token, c) else grant_token c

  -- The zero time is before every other.
  unfoldable pub invalidate_token : Call (Cached S) ⊤
  invalidate_token c = (ok tt, record c { admin_token = []; token_expires_at = 0 })

  unfoldable pub do_admin_request_with_token :
      Text → Text → Text → Body → Call (Cached S) HttpResponse
  unfolding send
  do_admin_request_with_token token method path body = send (record {
    method = method;
    url = k.server_url ++ (codes "/admin/realms/" ++ (k.realm ++ path));
    bearer = some token;
    body = body;
  })

  -- The second attempt of doAdminRequest.
  unfoldable pub retry_with_new_token : Text → Text → Body → Call (Cached S) HttpResponse
  unfolding invalidate_token get_admin_token do_admin_request_with_token
  retry_with_new_token method path body = do
    invalidate_token
    token ← get_admin_token
    do_admin_request_with_token token method path body

  unfoldable pub do_admin_request : Text → Text → Body → Call (Cached S) HttpResponse
  unfolding get_admin_token do_admin_request_with_token retry_with_new_token
  do_admin_request method path body = do
    token ← get_admin_token
    resp ← do_admin_request_with_token token method path body
    if resp.status == 401 then retry_with_new_token method path body else return resp

  unfoldable pub get_user_by_username : Text → Call (Cached S) (Option Text)
  unfolding do_admin_request
  get_user_by_username username = do
    resp ←
        do_admin_request (codes "GET")
          (codes "/users?username=" ++ (http.query_escape username ++ codes "&exact=true")) no_body
    expect 200 resp
    users ← from (http.decode_users resp.content)
    return (first_user users)

  unfoldable pub set_password : Text → Text → Call (Cached S) Text
  unfolding do_admin_request
  set_password password user_id = do
    resp ←
        do_admin_request (codes "PUT") (codes "/users/" ++ (user_id ++ codes "/reset-password"))
          (new_password password)
    expect 204 resp
    return user_id

  unfoldable pub create_user : Text → Text → Text → Text → Text → Call (Cached S) Text
  unfolding do_admin_request user_id_of set_password
  create_user username email password first_name last_name = do
    resp ←
        do_admin_request (codes "POST") (codes "/users")
          (new_user username email first_name last_name)
    expect 201 resp
    user_id ← from (user_id_of resp.location)
    set_password password user_id

  unfoldable pub delete_user : Text → Call (Cached S) ⊤
  unfolding do_admin_request
  delete_user user_id = do
    resp ← do_admin_request (codes "DELETE") (codes "/users/" ++ user_id) no_body
    if resp.status == 204 || resp.status == 404 then return tt else fail other

  unfoldable pub assign_role : Text → Text → Call (Cached S) ⊤
  unfolding do_admin_request
  assign_role user_id role_name = do
    role_resp ← do_admin_request (codes "GET") (codes "/roles/" ++ role_name) no_body
    expect 200 role_resp
    role ← from (http.decode_role role_resp.content)
    resp ←
        do_admin_request (codes "POST")
          (codes "/users/" ++ (user_id ++ codes "/role-mappings/realm"))
          (role_mapping role.0 role.1)
    expect 204 resp

  abbrev pub keycloak_provider : IdentityProvider (Cached S)
  keycloak_provider = record {
    get_user_by_username = get_user_by_username;
    create_user = create_user;
    assign_role = assign_role;
    delete_user = delete_user;
  }
