-- ===== src/Activities/Upgrade.antt =====
-- internal/activities/upgrade.go. EnableFeatures and UpdateBilling do nothing but log.
use tenantflow.Prelude.{ℕ, Text, ⊤, [], ◌∷◌, ◌*◌, ◌%◌, ◌^◌, if◌then◌else◌}
use tenantflow.Model.{Quota, AuditEventType, active, same_status, literal, compensation_event}
use tenantflow.World.{Act, other, ◌>>=◌, ◌>>◌, pure, raise}
use tenantflow.Repository.{get_tenant, get_quota, set_quota}
use tenantflow.Activities.Common.{record_event}

-- Go's `int`, as a pattern of 64 bits.
abbrev pub int64 : ℕ → ℕ
int64 n = n % 2 ^ 64

-- The new plan: users and seats twice, storage four times.
abbrev pub raised : Quota → Quota
raised old = record {
  max_users = int64 (old.max_users * 2);
  max_storage_gb = int64 (old.max_storage_gb * 4);
  max_seats = int64 (old.max_seats * 2);
}

module _ {S : Type 0} where
  unfoldable pub verify_tenant_active : Text → Act S Quota
  verify_tenant_active id = do
    tenant ← get_tenant id
    if same_status tenant.status active then get_quota id else raise other

  unfoldable pub raise_quotas : Text → Quota → Act S Quota
  raise_quotas id old = do set_quota id (raised old); pure (raised old)

  unfoldable pub enable_features : Text → Act S ⊤
  enable_features id = pure tt

  unfoldable pub update_billing : Text → Act S ⊤
  update_billing id = pure tt

  unfoldable pub rollback_quotas : Text → Quota → Act S ⊤
  rollback_quotas id old = do
    set_quota id old
    record_event id AuditEventType.tenant_quota_rolled_back
        (compensation_event "RollbackQuotas" "saga compensation")

  unfoldable pub mark_tenant_upgrading : Text → Act S ⊤
  mark_tenant_upgrading id = record_event id AuditEventType.tenant_upgrading []

  unfoldable pub mark_tenant_upgraded : Text → Act S ⊤
  mark_tenant_upgraded id = record_event id AuditEventType.tenant_upgraded []

  unfoldable pub mark_tenant_upgrade_failed : Text → Act S ⊤
  mark_tenant_upgrade_failed id =
      record_event id AuditEventType.tenant_upgrade_failed (("reason", literal "saga failed") ∷ [])
