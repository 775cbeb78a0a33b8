-- ===== src/Handlers/Retry.antt =====
-- internal/handler/tenant.go: RetryTenant, which replays a provisioning or resumes a deletion.
use tenantflow.Prelude.{ℕ, Text, ⊤, true, [], ◌∷◌, ◌++◌, some, codes, if◌then◌else◌}
use tenantflow.Model.{Tenant, failed, deleting, same_status, AuditEventType, text}
use tenantflow.World.{World, Result, ok, err}
use tenantflow.Repository.{write_event}
use tenantflow.Activities.Common.{is_not_found}
use tenantflow.Lifecycle.Control.{Launch}
use tenantflow.Handlers.{
  allow_duplicate, Start, StartAnswer, started, already_started, start_failed, SignalAnswer, Reply,
  refuse, answer_start, with_tenant,
}

module _ {S : Type 0} (start : Start → StartAnswer) (signal : Text → SignalAnswer) (grace : ℕ) where
  -- auditRetry: an error of it is only logged.
  unfoldable pub audit_retry : Text → Text → Text → AuditEventType → World S → World S
  audit_retry id workflow_id run_id kind w =
      (write_event
        (record {
          tenant_id = id;
          workflow_id = some workflow_id;
          event_type = kind;
          actor = "platform-admin";
          payload = ("runID", text run_id) ∷ [];
          created_at = 0;
        })
        w).1

  -- A replay: the start, and its event if it was accepted. A run that is already there is a 500.
  abbrev pub answer_retry : Text → AuditEventType → Start → StartAnswer → World S → Reply × World S
  answer_retry id kind s (started run_id) w =
      (answer_start 500 s (started run_id), audit_retry id s.workflow_id run_id kind w)
  answer_retry id kind s already_started w = (answer_start 500 s already_started, w)
  answer_retry id kind s start_failed w = (answer_start 500 s start_failed, w)

  unfoldable pub retry_provision : Tenant → World S → Reply × World S
  unfolding audit_retry
  retry_provision tenant w =
      let id = tenant.tenant_id in
      let s : Start = record {
        workflow_id = codes "provision-" ++ id;
        policy = allow_duplicate;
        launch = Launch.provision (codes "provision-" ++ id) id tenant.isolation_mode;
      } in
      answer_retry id AuditEventType.tenant_reprovision_requested s (start s) w

  -- `dead_letter` is FindLatestFailed of the tenant's deletions.
  unfoldable pub resume_delete : Result ⊤ → Tenant → World S → Reply × World S
  unfolding audit_retry
  resume_delete (err e) tenant w = (refuse (if is_not_found e then 409 else 500), w)
  resume_delete (ok dead_letter) tenant w =
      let id = tenant.tenant_id in
      let s : Start = record {
        workflow_id = codes "delete-" ++ id;
        policy = allow_duplicate;
        launch = Launch.delete (record {
          tenant_id = id;
          grace_period = grace;
          resume = true;
          isolation_mode = tenant.isolation_mode;
        });
      } in
      answer_retry id AuditEventType.tenant_delete_resumed s (start s) w

  unfoldable pub retry_tenant : (Text → Result ⊤) → Text → World S → Reply × World S
  unfolding with_tenant retry_provision resume_delete
  retry_tenant dead_letter id = with_tenant id (λ tenant u.
      if same_status tenant.status failed
      then retry_provision tenant u
      else if same_status tenant.status deleting
      then resume_delete (dead_letter id) tenant u
      else (refuse 409, u))
