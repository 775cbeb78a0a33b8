-- ===== src/Workflow/Delete.antt =====
-- internal/workflow/delete.go. `wait` is the selector of the grace period: what has become of the
-- world when the timer or the signal arrives, and whether it was the signal. `versioned` is the
-- answer of GetVersion: false for a run whose history is older than the backup before teardown.
use tenantflow.Prelude.{ℕ, Text, ⊤, Bool, if◌then◌else◌}
use tenantflow.Model.{Backup, IsolationMode, is_shared}
use tenantflow.World.{World, Act, ok, Error, ◌>>=◌, ◌>>◌, pure, raise, or_else}
use tenantflow.Cloud.Provider.{CloudProvider, IdentityProvider}
use tenantflow.Workflow.Temporal.{Temporal, joining}
use tenantflow.Activities.Deprovision.{
  mark_tenant_deleting, deprovision_tenant, mark_tenant_deleted, restore_tenant_after_cancel,
  mark_tenant_delete_failed,
}
use tenantflow.Activities.Identity.{delete_tenant_identity_by_tenant}
use tenantflow.Activities.Backup.{backup_tenant_data}

-- DeleteInput; the grace period in nanoseconds.
pub record DeleteInput : Type 0 where
  pub tenant_id : Text
  pub grace_period : ℕ
  pub resume : Bool
  pub isolation_mode : IsolationMode

module _ {S : Type 0} (t : Temporal S) (p : CloudProvider S) (k : IdentityProvider S)
    (wait : ℕ → World S → Bool × World S) (versioned : Bool) where
  -- The deferred function.
  unfoldable pub compensate_delete : Text → Error → Act S ⊤
  compensate_delete id e = do e1 ← joining (t.execute ⊤ (mark_tenant_delete_failed id)) e; raise e1

  unfoldable pub pre_delete_backup : DeleteInput → Act S ⊤
  pre_delete_backup i =
      if versioned
      then (if is_shared i.isolation_mode
          then pure tt
          else (t.execute Backup (backup_tenant_data p i.tenant_id) >>= λ _. pure tt))
      else pure tt

  unfoldable pub teardown : DeleteInput → Act S ⊤
  unfolding pre_delete_backup
  teardown i = do
    pre_delete_backup i
    t.execute ⊤ (deprovision_tenant p i.tenant_id)
    t.execute ⊤ (delete_tenant_identity_by_tenant k i.tenant_id)
    t.execute ⊤ (mark_tenant_deleted i.tenant_id)

  unfoldable pub grace : ℕ → Act S Bool
  grace period w = let (cancelled, w') = wait period w in (ok cancelled, w')

  unfoldable pub fresh_delete : DeleteInput → Act S ⊤
  fresh_delete i = do
    t.execute ⊤ (mark_tenant_deleting i.tenant_id)
    cancelled ← grace i.grace_period
    if cancelled then t.execute ⊤ (restore_tenant_after_cancel i.tenant_id) else teardown i

  unfoldable pub delete_tenant_workflow : DeleteInput → Act S ⊤
  unfolding fresh_delete
  delete_tenant_workflow i =
      or_else (if i.resume then teardown i else fresh_delete i) (compensate_delete i.tenant_id)
