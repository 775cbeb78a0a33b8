-- ===== src/Keycloak/Retry.antt =====
-- How often the requests of internal/identity/keycloak.go reach Keycloak, and when a refusal surfaces.
use tenantflow.Prelude.{
  ℕ, Text, Bool, true, false, ◌≡◌, refl, ◌+◌, ◌≤◌, ◌==◌, ◌||◌, arith, inl, inr, Bool-cases,
  if◌then◌else◌, ap,
}
use tenantflow.World.{Result, other}
use tenantflow.Call.{Call, return, fail, ◌>>=◌, bind-ok, bind-err, Result-cases}
use tenantflow.Keycloak.{
  Http, HttpRequest, HttpResponse, KeycloakConfig, Cached, Body, send, grant_request, grant_token,
  get_admin_token, token_is_fresh, invalidate_token, do_admin_request_with_token,
  retry_with_new_token, do_admin_request, get_user_by_username, set_password, create_user,
  delete_user, assign_role, user_id_of, expect, store_token,
}

abbrev pub is_grant : Body → Bool
is_grant (Body.password_grant client username password) = true
is_grant _ = false

-- A network that counts the requests and, among them, the password grants.
pub record Metered {S : Type 0} (http : Http S) : Type 0 where
  pub requests : S → ℕ
  pub grants : S → ℕ
  pub counts : (r : HttpRequest) (s : S) → requests (http.send r s).1 ≡ requests s + 1
  pub counts_grants :
      (r : HttpRequest) (s : S)
      → grants (http.send r s).1 ≡ grants s + (if is_grant r.body then 1 else 0)

-- The call sends at most `n` requests.
pub record SendsAtMost {S A : Type 0} {http : Http S} (meter : Metered http) (n : ℕ)
    (m : Call (Cached S) A) : Type 0 where
  pub bound : (c : Cached S) → meter.requests (m c).1.net ≤ meter.requests c.net + n

module _ {S : Type 0} {http : Http S} {meter : Metered http} where
  SendsAtMost-quiet :
      {A : Type 0} (m : Call (Cached S) A)
      → ((c : Cached S) → (m c).1.net ≡ c.net)
      → SendsAtMost meter 0 m
  SendsAtMost-quiet m h = record { bound = λ c. omega (arith, ap meter.requests (h c)) }

  SendsAtMost-return : {A : Type 0} (a : A) → SendsAtMost meter 0 (return a)
  SendsAtMost-return a = SendsAtMost-quiet (return a) (λ c. refl)

  SendsAtMost-fail : {A : Type 0} → SendsAtMost meter 0 (fail {A = A} other)
  SendsAtMost-fail = SendsAtMost-quiet (fail other) (λ c. refl)

  SendsAtMost-weaken :
      {A : Type 0} {m : Call (Cached S) A} {n : ℕ} (j : ℕ)
      → SendsAtMost meter n m
      → n ≤ j
      → SendsAtMost meter j m
  SendsAtMost-weaken j h le = record { bound = λ c. omega (arith, h.bound c, le) }

  SendsAtMost-if :
      {A : Type 0} (b : Bool) {n : ℕ} {m m' : Call (Cached S) A}
      → SendsAtMost meter n m
      → SendsAtMost meter n m'
      → SendsAtMost meter n (if b then m else m')
  SendsAtMost-if true h h' = h
  SendsAtMost-if false h h' = h'

  SendsAtMost-bind :
      {A B : Type 0} {m : Call (Cached S) A} {f : A → Call (Cached S) B} (n j : ℕ)
      → SendsAtMost meter n m
      → ((a : A) → SendsAtMost meter j (f a))
      → SendsAtMost meter (n + j) (m >>= f)
  SendsAtMost-bind {m = m} {f} n j hm hf = record {
    bound = λ c. elim (Result-cases (m c).0) [
      | inl (a, e) ↦ omega (
        arith,
        ap (λ r. meter.requests (r.1).net) (bind-ok m f c a e),
        hm.bound c,
        (hf a).bound (m c).1,
      )
      | inr (x, e) ↦
          omega (arith, ap (λ r. meter.requests (r.1).net) (bind-err m f c x e), hm.bound c)
    ];
  }

  SendsAtMost-from : {A : Type 0} (r : Result A) → SendsAtMost meter 0 (λ c. (r, c))
  SendsAtMost-from r = SendsAtMost-quiet (λ c. (r, c)) (λ c. refl)

module _ {S : Type 0} (http : Http S) (k : KeycloakConfig) (meter : Metered http) where
  SendsAtMost-send : (r : HttpRequest) → SendsAtMost meter 1 (send http k r)
  unfolding send
  SendsAtMost-send r = record { bound = λ c. omega (arith, meter.counts r c.net) }

  SendsAtMost-expect :
      (want : ℕ) (resp : HttpResponse) → SendsAtMost meter 0 (expect http k want resp)
  SendsAtMost-expect want resp =
      SendsAtMost-if (resp.status == want) (SendsAtMost-return tt) SendsAtMost-fail

  SendsAtMost-grant_token : SendsAtMost meter 1 (grant_token http k)
  unfolding grant_token
  SendsAtMost-grant_token = SendsAtMost-bind 1 0 (SendsAtMost-send (grant_request http k)) λ resp.
      SendsAtMost-bind 0 0 (SendsAtMost-expect 200 resp) λ _.
        SendsAtMost-bind 0 0 (SendsAtMost-from (http.decode_token resp.content))
          λ granted. SendsAtMost-quiet (store_token http k granted) (λ c. refl)

  SendsAtMost-get_admin_token : SendsAtMost meter 1 (get_admin_token http k)
  unfolding get_admin_token
  SendsAtMost-get_admin_token = record {
    bound = λ c. elim (Bool-cases (token_is_fresh http k c)) [
      | inl fresh ↦ rw fresh (omega arith)
      | inr stale ↦ rw stale (SendsAtMost-grant_token.bound c)
    ];
  }

  SendsAtMost-with_token :
      (token method path : Text) (body : Body)
      → SendsAtMost meter 1 (do_admin_request_with_token http k token method path body)
  unfolding do_admin_request_with_token
  SendsAtMost-with_token token method path body = SendsAtMost-send _

  SendsAtMost-retry :
      (method path : Text) (body : Body)
      → SendsAtMost meter 2 (retry_with_new_token http k method path body)
  unfolding retry_with_new_token invalidate_token
  SendsAtMost-retry method path body =
      SendsAtMost-bind 0 2 (SendsAtMost-quiet (invalidate_token http k) (λ c. refl)) λ _.
        SendsAtMost-bind 1 1 SendsAtMost-get_admin_token
          λ token. SendsAtMost-with_token token method path body

  SendsAtMost-do_admin_request :
      (method path : Text) (body : Body)
      → SendsAtMost meter 4 (do_admin_request http k method path body)
  unfolding do_admin_request
  SendsAtMost-do_admin_request method path body =
      SendsAtMost-bind 1 3 SendsAtMost-get_admin_token λ token.
        SendsAtMost-bind 1 2 (SendsAtMost-with_token token method path body) λ resp.
          SendsAtMost-if (resp.status == 401) (SendsAtMost-retry method path body)
            (SendsAtMost-weaken 2 (SendsAtMost-return resp) (omega arith))

  SendsAtMost-set_password :
      (password user_id : Text) → SendsAtMost meter 4 (set_password http k password user_id)
  unfolding set_password
  SendsAtMost-set_password password user_id =
      SendsAtMost-bind 4 0 (SendsAtMost-do_admin_request _ _ _)
        λ resp. SendsAtMost-bind 0 0 (SendsAtMost-expect 204 resp) λ _. SendsAtMost-return user_id

  -- Whatever Keycloak answers: looking a user up and deleting one send at most four requests each,
  -- creating a user and assigning a role at most eight, password grants included.
  pub methods_send_at_most :
      (username email password first_name last_name user_id role_name : Text)
      → SendsAtMost meter 4 (get_user_by_username http k username)
        × SendsAtMost meter 4 (delete_user http k user_id)
        × SendsAtMost meter 8 (create_user http k username email password first_name last_name)
        × SendsAtMost meter 8 (assign_role http k user_id role_name)
  unfolding get_user_by_username delete_user create_user assign_role
  methods_send_at_most username email password first_name last_name user_id role_name = (
    SendsAtMost-bind 4 0 (SendsAtMost-do_admin_request _ _ _) (λ resp.
        SendsAtMost-bind 0 0 (SendsAtMost-expect 200 resp) λ _.
          SendsAtMost-bind 0 0 (SendsAtMost-from (http.decode_users resp.content))
            λ users. SendsAtMost-return _),
    SendsAtMost-bind 4 0 (SendsAtMost-do_admin_request _ _ _) (λ resp.
        SendsAtMost-if (resp.status == 204 || resp.status == 404) (SendsAtMost-return tt)
          SendsAtMost-fail),
    SendsAtMost-bind 4 4 (SendsAtMost-do_admin_request _ _ _) (λ resp.
        SendsAtMost-bind 0 4 (SendsAtMost-expect 201 resp) λ _.
          SendsAtMost-bind 0 4 (SendsAtMost-from (user_id_of resp.location))
            λ id. SendsAtMost-set_password password id),
    SendsAtMost-bind 4 4 (SendsAtMost-do_admin_request _ _ _) (λ resp.
        SendsAtMost-bind 0 4 (SendsAtMost-expect 200 resp) λ _.
          SendsAtMost-bind 0 4 (SendsAtMost-from (http.decode_role resp.content)) λ role.
            SendsAtMost-bind 4 0 (SendsAtMost-do_admin_request _ _ _)
              λ assigned. SendsAtMost-expect 204 assigned),
  )
