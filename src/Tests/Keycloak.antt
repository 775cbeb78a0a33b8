-- ===== src/Tests/Keycloak.antt =====
-- Requests to a Keycloak that no longer accepts the cached token.
use tenantflow.Prelude.{ℕ, refl, ◌+◌, ◌^◌, ◌≤◌, [], codes, if◌then◌else◌}
use tenantflow.World.{ok, err, other}
use tenantflow.Keycloak.{
  Http, HttpResponse, KeycloakConfig, Cached, Body, no_body, do_admin_request, get_user_by_username,
  delete_user, create_user, assign_role,
}
use tenantflow.Keycloak.Retry.{Metered, SendsAtMost, is_grant, methods_send_at_most}
use tenantflow.Keycloak.Unauthorized.{unauthorized_after_grant}

-- Requests and grants so far.
abbrev Net : Type 0
Net = ℕ × ℕ

abbrev status_for : Body → ℕ
status_for (Body.password_grant c u p) = 200
status_for _ = 401

-- It grants tokens, and refuses every other request.
abbrev strict : Http Net
strict = record {
  send = λ r n. (
    ok (record { status = status_for r.body; location = []; content = [] }),
    (n.0 + 1, n.1 + (if is_grant r.body then 1 else 0)),
  );
  now = λ n. 1000;
  decode_token = λ s. ok (codes "fresh", 60);
  decode_users = λ s. ok [];
  decode_role = λ s. err other;
  query_escape = λ s. s;
}

abbrev meter : Metered strict
meter = record {
  requests = λ n. n.0;
  grants = λ n. n.1;
  counts = λ r n. refl;
  counts_grants = λ r n. refl;
}

abbrev site : KeycloakConfig
site = record {
  server_url = codes "http://kc";
  realm = codes "tenantflow";
  admin_user = codes "admin";
  admin_pass = codes "admin";
}

abbrev stale : Cached Net
stale = record { admin_token = codes "old"; token_expires_at = 10 ^ 15; net = (0, 0) }

abbrev refusal : HttpResponse
refusal = record { status = 401; location = []; content = [] }

unauthorized_after_grant_example :
    0 + 1 ≤ (do_admin_request strict site (codes "GET") (codes "/users") no_body stale).1.net.1
unfolding do_admin_request
unauthorized_after_grant_example =
    unauthorized_after_grant strict site meter (codes "GET") (codes "/users") no_body stale refusal
      refl refl

methods_send_at_most_example :
    SendsAtMost meter 4 (get_user_by_username strict site (codes "acme-admin"))
    × SendsAtMost meter 4 (delete_user strict site (codes "u1"))
    × SendsAtMost meter 8 (
        create_user strict site
          (codes "acme-admin")
          (codes "a@acme")
          (codes "pw")
          (codes "A")
          (codes "B"))
    × SendsAtMost meter 8 (assign_role strict site (codes "u1") (codes "tenant-admin"))
methods_send_at_most_example =
    methods_send_at_most strict site meter (codes "acme-admin") (codes "a@acme") (codes "pw")
      (codes "A") (codes "B") (codes "u1") (codes "tenant-admin")
