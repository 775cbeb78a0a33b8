-- ===== src/Workflow/Upgrade.antt =====
-- internal/workflow/upgrade.go
use tenantflow.Prelude.{Text, ⊤, Bool, true, false, if◌then◌else◌}
use tenantflow.Model.{Quota}
use tenantflow.World.{Act, Error, ◌>>=◌, ◌>>◌, pure, raise, or_else}
use tenantflow.Workflow.Temporal.{Temporal, joining}
use tenantflow.Activities.Upgrade.{
  verify_tenant_active, raise_quotas, enable_features, update_billing, rollback_quotas,
  mark_tenant_upgrading, mark_tenant_upgraded, mark_tenant_upgrade_failed,
}

-- Go's zero value, before VerifyTenantActive has answered.
abbrev pub zero_quota : Quota
zero_quota = record { max_users = 0; max_storage_gb = 0; max_seats = 0 }

module _ {S : Type 0} (t : Temporal S) where
  unfoldable pub compensate_upgrade : Text → Quota → Bool → {A : Type 0} → Error → Act S A
  compensate_upgrade id old_quota quota_raised e = do
    e1 ← (if quota_raised then joining (t.execute ⊤ (rollback_quotas id old_quota)) e else pure e)
    e2 ← joining (t.execute ⊤ (mark_tenant_upgrade_failed id)) e1
    raise e2

  unfoldable pub upgrade_tenant_workflow : Text → Act S ⊤
  upgrade_tenant_workflow id = do
    or_else (t.execute ⊤ (mark_tenant_upgrading id)) (compensate_upgrade id zero_quota false)
    old_quota ←
        or_else (t.execute Quota (verify_tenant_active id)) (compensate_upgrade id zero_quota false)
    new_quota ←
        or_else (t.execute Quota (raise_quotas id old_quota))
          (compensate_upgrade id old_quota false)
    or_else (t.execute ⊤ (enable_features id)) (compensate_upgrade id old_quota true)
    or_else (t.execute ⊤ (update_billing id)) (compensate_upgrade id old_quota true)
    or_else (t.execute ⊤ (mark_tenant_upgraded id)) (compensate_upgrade id old_quota true)
