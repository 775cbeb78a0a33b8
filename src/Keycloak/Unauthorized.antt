-- ===== src/Keycloak/Unauthorized.antt =====
-- When internal/identity/keycloak.go lets a refusal (401) through.
use tenantflow.Prelude.{
  ℕ, Text, false, ◌≡◌, refl, ◌+◌, ◌≤◌, ◌==◌, arith, inl, inr, Bool-cases, if◌then◌else◌, ap, ◌∙◌,
  ◌≢◌,
}
use tenantflow.World.{ok, other}
use tenantflow.Call.{Call, return, fail, ◌>>=◌, bind-ok, bind-err, bind-succeeds, Result-cases}
use tenantflow.Keycloak.{
  Http, HttpRequest, HttpResponse, KeycloakConfig, Cached, Body, send, grant_request, grant_token,
  get_admin_token, token_is_fresh, invalidate_token, do_admin_request_with_token,
  retry_with_new_token, do_admin_request, expect, from, store_token,
}
use tenantflow.Keycloak.Retry.{Metered, is_grant}

-- From this state the call makes at least `n` password grants.
record GrantsFrom {S A : Type 0} {http : Http S} (meter : Metered http) (c : Cached S) (n : ℕ)
    (m : Call (Cached S) A) : Type 0 where
  pub grows : meter.grants c.net + n ≤ meter.grants (m c).1.net

module _ {S : Type 0} {http : Http S} {meter : Metered http} where
  GrantsFrom-bind :
      {A B : Type 0} {m : Call (Cached S) A} {f : A → Call (Cached S) B} (c : Cached S) (n : ℕ)
      → GrantsFrom meter c n m
      → ((a : A) (u : Cached S) → GrantsFrom meter u 0 (f a))
      → GrantsFrom meter c n (m >>= f)
  GrantsFrom-bind {m = m} {f} c n hm hf = record {
    grows = elim (Result-cases (m c).0) [
      | inl (a, e) ↦ omega (
        arith,
        ap (λ r. meter.grants (r.1).net) (bind-ok m f c a e),
        hm.grows,
        (hf a (m c).1).grows,
      )
      | inr (x, e) ↦ omega (arith, ap (λ r. meter.grants (r.1).net) (bind-err m f c x e), hm.grows)
    ];
  }

  GrantsFrom-quiet :
      {A : Type 0} (m : Call (Cached S) A) (c : Cached S)
      → (m c).1.net ≡ c.net
      → GrantsFrom meter c 0 m
  GrantsFrom-quiet m c h = record { grows = omega (arith, ap meter.grants h) }

module _ {S : Type 0} (http : Http S) (k : KeycloakConfig) (meter : Metered http) where
  GrantsFrom-send :
      (r : HttpRequest) (c : Cached S)
      → GrantsFrom meter c (if is_grant r.body then 1 else 0) (send http k r)
  unfolding send
  GrantsFrom-send r c = record { grows = omega (arith, meter.counts_grants r c.net) }

  GrantsFrom-expect :
      (want : ℕ) (resp : HttpResponse) (c : Cached S)
      → GrantsFrom meter c 0 (expect http k want resp)
  GrantsFrom-expect want resp c = elim (Bool-cases (resp.status == want)) [
    | inl yes_it ↦ rw yes_it (GrantsFrom-quiet (return tt) c refl)
    | inr no_it ↦ rw no_it (GrantsFrom-quiet (fail other) c refl)
  ]

  GrantsFrom-grant_token : (c : Cached S) → GrantsFrom meter c 1 (grant_token http k)
  unfolding grant_token
  GrantsFrom-grant_token c =
      GrantsFrom-bind c 1 (GrantsFrom-send (grant_request http k) c) λ resp u.
        GrantsFrom-bind u 0 (GrantsFrom-expect 200 resp u) λ _ v.
          GrantsFrom-bind v 0
            (GrantsFrom-quiet (from http k (http.decode_token resp.content)) v refl)
            λ granted x. GrantsFrom-quiet (store_token http k granted) x refl

  GrantsFrom-get_admin_token : (c : Cached S) → GrantsFrom meter c 0 (get_admin_token http k)
  unfolding get_admin_token
  GrantsFrom-get_admin_token c = elim (Bool-cases (token_is_fresh http k c)) [
    | inl fresh ↦ record { grows = rw fresh (omega arith) }
    | inr stale ↦ record { grows = rw stale (omega (arith, (GrantsFrom-grant_token c).grows)) }
  ]

  GrantsFrom-with_token :
      (token method path : Text) (body : Body) (c : Cached S)
      → GrantsFrom meter c 0 (do_admin_request_with_token http k token method path body)
  unfolding do_admin_request_with_token
  GrantsFrom-with_token token method path body c = record {
    grows = omega (arith, (GrantsFrom-send _ c).grows);
  }

  -- Without a cached token there is no way round the grant.
  GrantsFrom-no_token :
      (c : Cached S) → GrantsFrom meter (invalidate_token http k c).1 1 (get_admin_token http k)
  unfolding get_admin_token token_is_fresh invalidate_token
  GrantsFrom-no_token c = record {
    grows = (GrantsFrom-grant_token (invalidate_token http k c).1).grows;
  }

  GrantsFrom-retry :
      (method path : Text) (body : Body) (c : Cached S)
      → GrantsFrom meter c 1 (retry_with_new_token http k method path body)
  unfolding retry_with_new_token invalidate_token
  GrantsFrom-retry method path body c = record {
    grows =
        (GrantsFrom-bind (invalidate_token http k c).1 1 (GrantsFrom-no_token c)
          (λ token u. GrantsFrom-with_token token method path body u)).grows;
  }

  ok_same : {a b : HttpResponse} → ok a ≡ ok b → a ≡ b
  ok_same h = cc h

  not_refused : {n : ℕ} → (n == 401) ≡ false → n ≢ 401
  not_refused h e = ground (arith, h, e)

  -- What doAdminRequest does with the answer to its first attempt.
  abbrev settled : Text → Text → Body → HttpResponse → Call (Cached S) HttpResponse
  settled method path body resp =
      if resp.status == 401 then retry_with_new_token http k method path body else return resp

  settled-unauthorized :
      (method path : Text) (body : Body) (first resp : HttpResponse) (c : Cached S)
      → (settled method path body first c).0 ≡ ok resp
      → resp.status ≡ 401
      → GrantsFrom meter c 1 (settled method path body first)
  settled-unauthorized method path body first resp c h refused =
      elim (Bool-cases (first.status == 401)) [
        | inl again ↦ rw again (GrantsFrom-retry method path body c)
        | inr passed ↦
            absurd (not_refused passed (ap (λ r. r.status) (ok_same (rw passed at h)) ∙ refused))
      ]

  -- doAdminRequest, with no other call of the provider at the same time, answers 401 only after a
  -- password grant in the same call: never with nothing but a cached token tried.
  pub unauthorized_after_grant :
      (method path : Text) (body : Body) (c : Cached S) (resp : HttpResponse)
      → (do_admin_request http k method path body c).0 ≡ ok resp
      → resp.status ≡ 401
      → meter.grants c.net + 1 ≤ meter.grants (do_admin_request http k method path body c).1.net
  unfolding do_admin_request
  unauthorized_after_grant method path body c resp h refused =
      let attempt : Text → Call (Cached S) HttpResponse = λ token.
        do_admin_request_with_token http k token method path body >>= settled method path body in
      let (token, got, same) = bind-succeeds (get_admin_token http k) attempt c resp h in
      let c1 = (get_admin_token http k c).1 in
      let (first, sent, same') =
        bind-succeeds (do_admin_request_with_token http k token method path body)
          (settled method path body) c1 resp (cc (h, same)) in
      let c2 = (do_admin_request_with_token http k token method path body c1).1 in
      omega (
        arith,
        (GrantsFrom-get_admin_token c).grows,
        (GrantsFrom-with_token token method path body c1).grows,
        (settled-unauthorized method path body first resp c2 (cc h) refused).grows,
        ap (λ r. meter.grants (r.1).net) same,
        ap (λ r. meter.grants (r.1).net) same',
      )
