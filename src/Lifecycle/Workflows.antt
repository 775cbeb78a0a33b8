-- ===== src/Lifecycle/Workflows.antt =====
-- Every workflow follows the relation, if the others that run meanwhile do.
use tenantflow.Prelude.{ℕ, Text, Bool}
use tenantflow.Model.{IsolationMode}
use tenantflow.World.{World, Act, Error}
use tenantflow.Cloud.Provider.{CloudProvider, IdentityProvider}
use tenantflow.Workflow.Temporal.{Temporal, TemporalLaws}
use tenantflow.Workflow.Provision.{compensate_provision, provision_tenant_workflow}
use tenantflow.Workflow.Delete.{
  DeleteInput, compensate_delete, teardown, grace, fresh_delete, delete_tenant_workflow,
}
use tenantflow.Lifecycle.Steps.{Reach}
use tenantflow.Lifecycle.Follows.{Follows, Follows-execute, call_rules}
use tenantflow.Lifecycle.Activities.{
  Follows-create_tenant_record, Follows-mark_tenant_active, Follows-mark_tenant_failed,
  Follows-mark_tenant_deleting, Follows-mark_tenant_deleted, Follows-restore_tenant_after_cancel,
  Follows-mark_tenant_delete_failed, Follows-provision_tenant, Follows-drop_tenant_database,
  Follows-deprovision_tenant, Follows-provision_tenant_identity, Follows-delete_tenant_identity,
  Follows-delete_tenant_identity_by_tenant,
}
use tenantflow.Lifecycle.Recovery.{Follows-backup_tenant_data}

ruleset provision_rules = (
  call_rules, Follows-create_tenant_record, Follows-mark_tenant_active, Follows-mark_tenant_failed,
  Follows-provision_tenant, Follows-drop_tenant_database, Follows-provision_tenant_identity,
  Follows-delete_tenant_identity,
)

ruleset delete_rules = (
  call_rules, Follows-mark_tenant_deleting, Follows-mark_tenant_deleted,
  Follows-restore_tenant_after_cancel, Follows-mark_tenant_delete_failed,
  Follows-deprovision_tenant, Follows-delete_tenant_identity_by_tenant, Follows-backup_tenant_data,
)

module _ {S : Type 0} {rely : World S → World S → Type 0} {t : Temporal S} (p : CloudProvider S)
    (k : IdentityProvider S) (laws : TemporalLaws S rely t)
    (others : (w w' : World S) → rely w w' → Reach w w') where
  run : {A : Type 0} (m : Act S A) → Follows m → Follows (t.execute A m)
  run m f = Follows-execute laws others m f

  Follows-compensate_provision :
      {A : Type 0} (id user_id : Text) (created : Bool) (e : Error)
      → Follows (compensate_provision t p k id user_id created {A = A} e)
  unfolding compensate_provision
  Follows-compensate_provision id user_id created e = search (provision_rules, run) depth 9

  pub Follows-provision_tenant_workflow :
      (workflow_id id : Text) (mode : IsolationMode)
      → Follows (provision_tenant_workflow t p k workflow_id id mode)
  unfolding provision_tenant_workflow
  Follows-provision_tenant_workflow workflow_id id mode =
      search (provision_rules, run, Follows-compensate_provision) depth 9

module _ {S : Type 0} {rely : World S → World S → Type 0} {t : Temporal S} (p : CloudProvider S)
    (k : IdentityProvider S) (laws : TemporalLaws S rely t)
    (others : (w w' : World S) → rely w w' → Reach w w') (wait : ℕ → World S → Bool × World S)
    (meanwhile : (n : ℕ) (w : World S) → Reach w (wait n w).1) (versioned : Bool) where
  execute_follows : {A : Type 0} (m : Act S A) → Follows m → Follows (t.execute A m)
  execute_follows m f = Follows-execute laws others m f

  Follows-grace : (n : ℕ) → Follows (grace t p k wait versioned n)
  unfolding grace
  Follows-grace n = record { at = meanwhile n }

  Follows-teardown : (i : DeleteInput) → Follows (teardown t p k wait versioned i)
  unfolding teardown
  Follows-teardown i = search (delete_rules, execute_follows) depth 9

  Follows-fresh_delete : (i : DeleteInput) → Follows (fresh_delete t p k wait versioned i)
  unfolding fresh_delete
  Follows-fresh_delete i =
      search (delete_rules, execute_follows, Follows-teardown, Follows-grace) depth 9

  Follows-compensate_delete :
      (id : Text) (e : Error) → Follows (compensate_delete t p k wait versioned id e)
  unfolding compensate_delete
  Follows-compensate_delete id e = search (delete_rules, execute_follows) depth 9

  pub Follows-delete_tenant_workflow :
      (i : DeleteInput) → Follows (delete_tenant_workflow t p k wait versioned i)
  unfolding delete_tenant_workflow
  Follows-delete_tenant_workflow i =
      search (call_rules, Follows-teardown, Follows-fresh_delete, Follows-compensate_delete)
