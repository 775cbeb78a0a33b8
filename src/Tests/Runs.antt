-- ===== src/Tests/Runs.antt =====
-- Whole workflows, run on the stand-in server.
mod Open
unfoldable pub use Open.{run, summary}
use tenantflow.World.{World, ok, Answer, done, refused}
use tenantflow.Lifecycle.Steps.{Reach}
use tenantflow.Workflow.Delete.{delete_tenant_workflow}
use tenantflow.Workflow.Upgrade.{upgrade_tenant_workflow}
use tenantflow.Activities.Upgrade.{raised}
use tenantflow.Contracts.Plans.{plan_of}
use tenantflow.Contracts.Upgrade.{upgrade_success_raises}
use tenantflow.Lifecycle.Control.{run_workflow}
use tenantflow.Lifecycle.Status.{status_of}
use tenantflow.Workflow.Provision.{provision_tenant_workflow}
use tenantflow.Contracts.Endings.{provision_success_activates, delete_success_deletes}
use tenantflow.Fixture.Executor.{three_attempts, three_attempts_laws, Alone}
use tenantflow.Fixture.Server.{Server, server_cloud, server_identity}
use tenantflow.Prelude.{◌≡◌, refl, true, false, some, none, codes, Bool, [], ◌∷◌, List, inr}
use tenantflow.Model.{active, failed, deleting, deleted, dedicated, shared}
use tenantflow.Fixture.Start.{acme, acme_server, empty_server, acme_world, blank_world}
use tenantflow.Workflow.Delete.{DeleteInput}
use tenantflow.Lifecycle.Control.{Launch}

-- A fresh tenant is provisioned: it is active, and its database is there.
provision_runs :
    summary (run false (Launch.provision (codes "provision-acme") acme dedicated) blank_world)
    ≡ (true, some active, true)
unfolding run
provision_runs = refl

provision_ok :
    (run false (Launch.provision (codes "provision-acme") acme dedicated) blank_world).0 ≡ ok tt
unfolding run
provision_ok = refl

status_kept : (w w' : World Server) → Alone w w' → status_of acme w' ≡ status_of acme w
status_kept w w' r = absurd r

provision_success_activates_example :
    status_of acme
      (provision_tenant_workflow three_attempts server_cloud server_identity
        (codes "provision-acme")
        acme
        dedicated
        blank_world).1
    ≡ some active
unfolding run run_workflow
provision_success_activates_example =
    provision_success_activates server_cloud server_identity three_attempts_laws
      (codes "provision-acme") acme dedicated status_kept blank_world provision_ok

abbrev delete_acme : DeleteInput
delete_acme = record {
  tenant_id = acme;
  grace_period = 60;
  resume = false;
  isolation_mode = dedicated;
}

-- A deletion whose grace period runs out: the tenant is deleted, and its database is gone.
delete_runs :
    summary (run false (Launch.delete delete_acme) (acme_world active acme_server []))
    ≡ (true, some deleted, false)
unfolding run
delete_runs = refl

-- A deletion that is cancelled: the tenant is active again, with its database.
cancelled_delete_runs :
    summary (run true (Launch.delete delete_acme) (acme_world active acme_server []))
    ≡ (true, some active, true)
unfolding run
cancelled_delete_runs = refl

-- A cancelled deletion of a failed tenant makes it active.
cancelled_delete_of_failed_runs :
    summary (run true (Launch.delete delete_acme) (acme_world failed empty_server []))
    ≡ (true, some active, false)
unfolding run
cancelled_delete_of_failed_runs = refl

migrate_runs :
    summary (run false (Launch.migrate acme) (acme_world active acme_server []))
    ≡ (true, some active, true)
unfolding run
migrate_runs = refl

-- If the rename fails, the database is gone, under both of its names.
abbrev stubborn_server : Server
stubborn_server = record acme_server { no_rename = true }

failed_switch_runs :
    (run false (Launch.migrate acme) (acme_world active stubborn_server [])).1.ext.databases ≡ []
unfolding run
failed_switch_runs = refl

-- The status is set and the event of it is refused: the retry finds the status set, and the
-- compensation drops the database of a tenant that stays active.
abbrev refused_event : List Answer
refused_event =
    (record { outcome = done; clock = 1 })
    ∷ (record { outcome = done; clock = 2 })
    ∷ (record { outcome = done; clock = 3 })
    ∷ (record { outcome = done; clock = 4 })
    ∷ (record { outcome = refused; clock = 5 })
    ∷ []

refused_event_runs :
    summary (
      run false
        (Launch.provision (codes "provision-acme") acme dedicated)
        (record blank_world { answers = refused_event }))
    ≡ (false, some active, false)
unfolding run
refused_event_runs = refl

delete_ok : (run false (Launch.delete delete_acme) (acme_world active acme_server [])).0 ≡ ok tt
unfolding run
delete_ok = refl

nobody : (w w' : World Server) → Alone w w' → Reach w w'
nobody w w' r = absurd r

delete_success_deletes_example :
    status_of acme
      (delete_tenant_workflow three_attempts server_cloud server_identity
        (λ n w. (false, w))
        true
        delete_acme
        (acme_world active acme_server [])).1
    ≡ some deleted
unfolding run run_workflow
delete_success_deletes_example =
    delete_success_deletes server_cloud server_identity three_attempts_laws nobody
      (λ n w. (false, w)) true delete_acme (inr (λ n w. refl)) (acme_world active acme_server [])
      delete_ok

upgrade_ok : (run false (Launch.upgrade acme) (acme_world active acme_server [])).0 ≡ ok tt
unfolding run
upgrade_ok = refl

plan_kept : (w w' : World Server) → Alone w w' → plan_of acme w' ≡ plan_of acme w
plan_kept w w' r = absurd r

upgrade_success_raises_example :
    plan_of acme (upgrade_tenant_workflow three_attempts acme (acme_world active acme_server [])).1
    ≡ raised (plan_of acme (acme_world active acme_server []))
unfolding run run_workflow
upgrade_success_raises_example =
    upgrade_success_raises three_attempts_laws acme plan_kept (acme_world active acme_server [])
      upgrade_ok
