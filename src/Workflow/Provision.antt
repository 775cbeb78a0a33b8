-- ===== src/Workflow/Provision.antt =====
-- internal/workflow/provision.go
use tenantflow.Prelude.{Text, ⊤, Bool, true, false, [], text_eq, if◌then◌else◌}
use tenantflow.Model.{IsolationMode}
use tenantflow.World.{Act, Error, ◌>>=◌, ◌>>◌, pure, raise, or_else}
use tenantflow.Cloud.Provider.{CloudProvider, IdentityProvider}
use tenantflow.Workflow.Temporal.{Temporal, joining}
use tenantflow.Activities.Provision.{
  create_tenant_record, provision_tenant, mark_tenant_active, mark_tenant_failed,
  drop_tenant_database,
}
use tenantflow.Activities.Identity.{provision_tenant_identity, delete_tenant_identity}

module _ {S : Type 0} (t : Temporal S) (p : CloudProvider S) (k : IdentityProvider S) where
  -- The deferred function, at the values that userID and dbCreated have when the error returns.
  unfoldable pub compensate_provision : Text → Text → Bool → {A : Type 0} → Error → Act S A
  compensate_provision id user_id db_created e = do
    e1 ←
        (if text_eq user_id []
          then pure e
          else joining (t.execute ⊤ (delete_tenant_identity k user_id)) e)
    e2 ← (if db_created then joining (t.execute ⊤ (drop_tenant_database p id)) e1 else pure e1)
    e3 ← joining (t.execute ⊤ (mark_tenant_failed id)) e2
    raise e3

  unfoldable pub provision_tenant_workflow : Text → Text → IsolationMode → Act S ⊤
  provision_tenant_workflow workflow_id id mode = do
    or_else (t.execute ⊤ (create_tenant_record id workflow_id mode))
        (compensate_provision id [] false)
    or_else (t.execute ⊤ (provision_tenant p id mode)) (compensate_provision id [] false)
    user_id ←
        or_else (t.execute Text (provision_tenant_identity k id)) (compensate_provision id [] true)
    or_else (t.execute ⊤ (mark_tenant_active id)) (compensate_provision id user_id true)
