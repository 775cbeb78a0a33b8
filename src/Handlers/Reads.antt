-- ===== src/Handlers/Reads.antt =====
-- internal/handler/tenant.go: the endpoints that read. A reply is its status code with what the body
-- shows. Cost/Measured has CostTenant.
use tenantflow.Prelude.{ℕ, Text, Bool, Int64, List, [], map, none, some, Option, if◌then◌else◌}
use tenantflow.Model.{Tenant, TenantStatus, IsolationMode, Backup, Quota, AuditEvent}
use tenantflow.World.{World, Result, ok, err}
use tenantflow.Repository.{get_tenant, list_tenants, list_backups, list_events, get_quota}
use tenantflow.Activities.Common.{is_not_found}
use tenantflow.Recorder.{Instance}
use tenantflow.Recorder.Queue.{list_failed}
use tenantflow.Handlers.{failed_runs_limit}

-- 200 with a body, or an error with its code.
pub data Shown (A : Type 0) : Type 0 where
  shown : A → Shown A
  failed_with : ℕ → Shown A

pub record TenantResponse : Type 0 where
  pub tenant_id : Text
  pub status : TenantStatus
  pub isolation_mode : IsolationMode
  -- empty if the tenant has no workflow
  pub workflow_id : Text
  pub created_at : ℕ
  pub updated_at : ℕ

pub record QuotaResponse : Type 0 where
  pub tenant_id : Text
  pub quota : Quota

abbrev or_empty : Option Text → Text
or_empty none = []
or_empty (some s) = s

unfoldable pub to_tenant_response : Tenant → TenantResponse
to_tenant_response t = record {
  tenant_id = t.tenant_id;
  status = t.status;
  isolation_mode = t.isolation_mode;
  workflow_id = or_empty t.workflow_id;
  created_at = t.created_at;
  updated_at = t.updated_at;
}

module _ {S A : Type 0} where
  -- `if err != nil { writeError(500) }`, else the body
  abbrev pub show_or_500 : {B : Type 0} → (B → A) → Result B × World S → Shown A × World S
  show_or_500 body (ok b, w) = (shown (body b), w)
  show_or_500 body (err e, w) = (failed_with 500, w)

  -- `if _, err := h.store.GetTenant(...); err != nil`, with what follows
  abbrev pub show_tenant :
      (Tenant → World S → Shown A × World S) → Result Tenant × World S → Shown A × World S
  show_tenant next (ok t, w) = next t w
  show_tenant next (err e, w) = (failed_with (if is_not_found e then 404 else 500), w)

module _ {S : Type 0} where
  unfoldable pub get_tenant_detail : Text → World S → Shown TenantResponse × World S
  unfolding to_tenant_response
  get_tenant_detail id w = show_tenant (λ t u. (shown (to_tenant_response t), u)) (get_tenant id w)

  unfoldable pub list_all_tenants : World S → Shown (List TenantResponse) × World S
  unfolding to_tenant_response
  list_all_tenants w = show_or_500 (map to_tenant_response) (list_tenants w)

  unfoldable pub get_tenant_quota : Text → World S → Shown QuotaResponse × World S
  get_tenant_quota id w =
      show_tenant (λ t u. show_or_500 (λ q. record { tenant_id = id; quota = q }) (get_quota id u))
        (get_tenant id w)

  unfoldable pub list_tenant_backups : Text → World S → Shown (List Backup) × World S
  list_tenant_backups id w =
      show_tenant (λ t u. show_or_500 (λ backups. backups) (list_backups id u)) (get_tenant id w)

  unfoldable pub list_tenant_events : Text → World S → Shown (List AuditEvent) × World S
  list_tenant_events id w =
      show_tenant (λ t u. show_or_500 (λ events. events) (list_events id u)) (get_tenant id w)

-- FailedRunResponse
pub record FailedRun : Type 0 where
  -- empty if the run's workflow id names no tenant
  pub tenant_id : Text
  pub workflow_type : Text
  pub workflow_id : Text
  pub run_id : Text
  -- empty if there is no message
  pub error_message : Text
  pub started_at : ℕ
  pub finished_at : Option ℕ

unfoldable pub to_failed_run : Instance → FailedRun
to_failed_run i = record {
  tenant_id = or_empty i.tenant_id;
  workflow_type = i.workflow_type;
  workflow_id = i.workflow_id;
  run_id = i.run_id;
  error_message = or_empty i.error;
  started_at = i.started_at;
  finished_at = i.finished_at;
}

abbrev answer_runs : Result (List Instance) → Shown (List FailedRun)
answer_runs (ok rows) = shown (map to_failed_run rows)
answer_runs (err e) = failed_with 500

-- ListFailedRuns, by whether the database answers, the limit as Atoi reads it, and the table.
unfoldable pub list_failed_runs : Bool → Option Int64 → List Instance → Shown (List FailedRun)
unfolding to_failed_run list_failed failed_runs_limit
list_failed_runs answers limit rows =
    answer_runs (list_failed answers (failed_runs_limit limit) rows)
