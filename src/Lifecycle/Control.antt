-- ===== src/Lifecycle/Control.antt =====
-- The workflows that internal/worker/worker.go registers, the sweep aside, as one type of calls.
use tenantflow.Prelude.{ℕ, Text, ⊤, Bool}
use tenantflow.Model.{IsolationMode}
use tenantflow.World.{World, Act, ◌>>=◌, pure}
use tenantflow.Cloud.Provider.{CloudProvider, IdentityProvider}
use tenantflow.Workflow.Temporal.{Temporal, TemporalLaws}
use tenantflow.Workflow.Provision.{provision_tenant_workflow}
use tenantflow.Workflow.Delete.{DeleteInput, delete_tenant_workflow}
use tenantflow.Workflow.Upgrade.{upgrade_tenant_workflow}
use tenantflow.Workflow.Migrate.{migrate_tenant_workflow}
use tenantflow.Workflow.Backup.{backup_tenant_workflow}
use tenantflow.Workflow.Restore.{restore_tenant_workflow}
use tenantflow.Workflow.Reconcile.{reconcile_tenant_workflow}
use tenantflow.Lifecycle.Steps.{Reach}
use tenantflow.Lifecycle.Follows.{Follows, Follows-bind, Follows-pure}
use tenantflow.Lifecycle.Workflows.{
  Follows-provision_tenant_workflow, Follows-delete_tenant_workflow,
}
use tenantflow.Lifecycle.Sagas.{
  Follows-upgrade_tenant_workflow, Follows-migrate_tenant_workflow, Follows-backup_tenant_workflow,
  Follows-restore_tenant_workflow,
}
use tenantflow.Lifecycle.Reconciliation.{Follows-reconcile_tenant_workflow}

-- What is outside the control plane's code: Temporal, the two providers, the selector of a grace
-- period (see Workflow/Delete) and the version marker of the run.
pub record Outside (S : Type 0) : Type 1 where
  pub temporal : Temporal S
  pub cloud : CloudProvider S
  pub identity : IdentityProvider S
  pub wait : ℕ → World S → Bool × World S
  pub versioned : Bool

-- What is assumed of it: the laws of an execution, and that the other workflows, which may act
-- between the attempts of an activity and during a grace period, follow the relation too.
pub record OutsideLaws (S : Type 0) (o : Outside S) : Type 1 where
  pub rely : World S → World S → Type 0
  pub laws : TemporalLaws S rely o.temporal
  pub others : (w w' : World S) → rely w w' → Reach w w'
  pub meanwhile : (n : ℕ) (w : World S) → Reach w (o.wait n w).1

pub data Launch : Type 0 where
  -- the workflow's own id, the tenant's id, the mode
  provision : Text → Text → IsolationMode → Launch
  delete : DeleteInput → Launch
  upgrade migrate backup : Text → Launch
  restore : Text → ℕ → Launch
  reconcile : Text → Text → Launch

unfoldable pub run_workflow : {S : Type 0} → Outside S → Launch → Act S ⊤
run_workflow o (provision workflow_id id mode) =
    provision_tenant_workflow o.temporal o.cloud o.identity workflow_id id mode
run_workflow o (delete i) =
    delete_tenant_workflow o.temporal o.cloud o.identity o.wait o.versioned i
run_workflow o (upgrade id) = upgrade_tenant_workflow o.temporal id
run_workflow o (migrate id) = migrate_tenant_workflow o.temporal o.cloud id
run_workflow o (backup id) = backup_tenant_workflow o.temporal o.cloud id
run_workflow o (restore id n) = restore_tenant_workflow o.temporal o.cloud id n
run_workflow o (reconcile workflow_id id) =
    reconcile_tenant_workflow o.temporal o.cloud workflow_id id >>= λ _. pure tt

module _ {S : Type 0} (o : Outside S) (l : OutsideLaws S o) where
  pub Follows-run_workflow : (launch : Launch) → Follows (run_workflow o launch)
  unfolding run_workflow
  Follows-run_workflow (provision workflow_id id mode) =
      Follows-provision_tenant_workflow o.cloud o.identity l.laws l.others workflow_id id mode
  Follows-run_workflow (delete i) =
      Follows-delete_tenant_workflow o.cloud o.identity l.laws l.others o.wait l.meanwhile
        o.versioned i
  Follows-run_workflow (upgrade id) = Follows-upgrade_tenant_workflow l.laws l.others id
  Follows-run_workflow (migrate id) = Follows-migrate_tenant_workflow o.cloud l.laws l.others id
  Follows-run_workflow (backup id) = Follows-backup_tenant_workflow o.cloud l.laws l.others id
  Follows-run_workflow (restore id n) = Follows-restore_tenant_workflow o.cloud l.laws l.others id n
  Follows-run_workflow (reconcile workflow_id id) =
      Follows-bind _ _ (Follows-reconcile_tenant_workflow o.cloud l.laws l.others workflow_id id)
        (λ _. Follows-pure tt)
