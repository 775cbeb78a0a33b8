-- ===== src/Cost/Measured.antt =====
-- What is measured of tenants: TenantResources and ListTenantResources of
-- internal/repository/tenant.go, the loader of cmd/api/main.go and CostTenant of
-- internal/handler/tenant.go. The sizes of databases, which PostgreSQL gives, are a parameter, and so
-- is the table workflow_instances; `month` is the interval of 30 days.
use tenantflow.Prelude.{
  ℕ, Text, List, map, Option, none, some, ◌+◌, ◌&&◌, not, ltb, length, text_eq, codes,
}
use tenantflow.Model.{Tenant, deleted, same_status}
use tenantflow.World.{World, Act, Result, ok, err, find_tenant, or_not_found, statement}
use tenantflow.Repository.{matching, get_tenant}
use tenantflow.Activities.Reconcile.{backup_completed}
use tenantflow.Cloud.Names.{tenant_database_name}
use tenantflow.Recorder.{Instance}
use tenantflow.Recorder.Queue.{of_tenant}
use tenantflow.Handlers.Reads.{Shown, show_or_500, show_tenant}
use tenantflow.Cost.{
  Floats, Resources, TenantResources, Estimate, TenantEstimate, default_model, monthly_estimate,
  Sample, collect,
}

abbrev or_zero : Option ℕ → ℕ
or_zero none = 0
or_zero (some n) = n

abbrev pub fetched : {A B : Type 0} → (A → B) → Option A → Option B
fetched f none = none
fetched f (some a) = some (f a)

module _ {S : Type 0} (sizes : Text → Option ℕ) (runs : List Instance) (month : ℕ) where
  -- The SELECT's columns for one row of tenants.
  unfoldable pub measured : World S → Tenant → Resources
  measured w t = record {
    storage_bytes = or_zero (sizes (tenant_database_name t.tenant_id));
    isolation_mode = t.isolation_mode;
    workflow_executions = length (
        matching (λ i. of_tenant t.tenant_id i.tenant_id && ltb w.now (i.started_at + month)) runs);
    backup_count =
        length (matching (λ b. text_eq b.tenant_id t.tenant_id && backup_completed b) w.backups);
  }

  unfoldable pub tenant_resources : Text → Act S Resources
  unfolding statement measured
  tenant_resources id =
      statement (λ w. or_not_found (fetched (measured w) (find_tenant id w.tenants)) w)

  abbrev pub measured_row : World S → Tenant → TenantResources
  measured_row w t = record { tenant_id = t.tenant_id; resources = measured w t }

  -- The query gives no order: here the table's.
  unfoldable pub list_tenant_resources : Act S (List TenantResources)
  unfolding statement measured
  list_tenant_resources = statement (λ w.
      (ok (map (measured_row w) (matching (λ t. not (same_status t.status deleted)) w.tenants)), w))

module _ (n : Floats) where
  -- What CostTenant shows.
  pub record CostResponse : Type 0 where
    pub tenant_id : Text
    pub price_model : Text
    pub resources : Resources
    pub estimate : Estimate n

  abbrev pub cost_response : Text → Resources → CostResponse
  cost_response id r = record {
    tenant_id = id;
    price_model = codes "default";
    resources = r;
    estimate = monthly_estimate n r (default_model n);
  }

  abbrev pub priced : TenantResources → TenantEstimate n
  priced r = record {
    tenant_id = r.tenant_id;
    resources = r.resources;
    estimate = monthly_estimate n r.resources (default_model n);
  }

  abbrev priced_all : Result (List TenantResources) → Result (List (TenantEstimate n))
  priced_all (ok rs) = ok (map priced rs)
  priced_all (err e) = err e

module _ {S : Type 0} (sizes : Text → Option ℕ) (runs : List Instance) (month : ℕ)
    (n : Floats) where
  unfoldable pub cost_tenant : Text → World S → Shown (CostResponse n) × World S
  unfolding tenant_resources
  cost_tenant id w =
      show_tenant (λ t u. show_or_500 (cost_response n id) (tenant_resources sizes runs month id u))
        (get_tenant id w)

  -- The loader, and a scrape.
  unfoldable pub load_estimates : World S → Result (List (TenantEstimate n))
  unfolding list_tenant_resources
  load_estimates w = priced_all n (list_tenant_resources sizes runs month w).0

  unfoldable pub scrape : World S → List (Sample n)
  unfolding load_estimates
  scrape w = collect n (load_estimates w)
