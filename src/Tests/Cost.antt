-- ===== src/Tests/Cost.antt =====
-- The lists of acme's rows, and a scrape with prices in whole units.
use tenantflow.Prelude.{ℕ, Text, ◌≡◌, ◌↔◌, ◌+◌, ◌*◌, ◌/◌, refl, [], some, List, Option, text_eq}
use tenantflow.Model.{Tenant, Backup, AuditEvent, active}
use tenantflow.World.{World, ok, find_tenant, statement}
use tenantflow.Repository.{list_events, list_backups, list_tenants, get_tenant, select_tenant}
use tenantflow.Repository.Sorted.{Stands, NewestFirst}
use tenantflow.Repository.Listed.{Lists, queries_start_with_newest}
use tenantflow.Cost.{Floats, samples_of}
use tenantflow.Cost.Measured.{
  CostResponse, cost_response, measured, tenant_resources, cost_tenant, scrape,
}
use tenantflow.Cost.Agrees.{labelled, shown_estimate, scrape_shows_costs}
use tenantflow.Fixture.Server.{Server}
use tenantflow.Fixture.Start.{acme, acme_row, acme_server, acme_world}

abbrev here : World Server
here = acme_world active acme_server []

queries_start_with_newest_example :
    ((es : List AuditEvent)
      → (list_events acme here).0 ≡ ok es
      → Lists (λ (e : AuditEvent). e.created_at) (λ e. e.tenant_id ≡ acme) here.audit es)
    × ((bs : List Backup)
        → (list_backups acme here).0 ≡ ok bs
        → Lists (λ (b : Backup). b.created_at) (λ b. b.tenant_id ≡ acme) here.backups bs)
    × ((ts : List Tenant)
        → (list_tenants here).0 ≡ ok ts
        → NewestFirst (λ (t : Tenant). t.created_at) ts
          × ((t : Tenant) → Stands t ts ↔ Stands t here.tenants))
queries_start_with_newest_example = queries_start_with_newest acme here

-- Every price is one.
abbrev whole : Floats
whole = record {
  Float = ℕ;
  of_int = λ n. n;
  literal = λ s. 1;
  plus = λ a b. a + b;
  times = λ a b. a * b;
  over = λ a b. a / b;
}

abbrev sizes : Text → Option ℕ
sizes name = some 4000000000

-- What the endpoint shows of acme.
abbrev shown_cost : CostResponse whole
shown_cost = cost_response whole acme (measured sizes [] 30 here (acme_row active))

scrape_shows_costs_example :
    labelled whole acme (scrape sizes [] 30 whole here)
    ≡ samples_of whole (shown_estimate whole shown_cost)
unfolding find_tenant cost_tenant tenant_resources get_tenant select_tenant statement text_eq
scrape_shows_costs_example =
    scrape_shows_costs sizes [] 30 whole here acme (acme_row active) shown_cost refl (refl, tt) refl
      refl
