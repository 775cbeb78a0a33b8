-- ===== src/Tests/Contracts.antt =====
-- The contracts, at worlds of the stand-ins.
use tenantflow.Prelude.{ℕ, ◌≡◌, [], some, codes}
use tenantflow.Model.{Backup, BackupStatus, active}
use tenantflow.World.{World}
use tenantflow.Workflow.Upgrade.{upgrade_tenant_workflow}
use tenantflow.Contracts.Plans.{plan_of, AtOneOf}
use tenantflow.Contracts.Upgrade.{upgrade_raises_at_most_once}
use tenantflow.Fixture.Executor.{three_attempts, three_attempts_laws, Alone}
use tenantflow.Fixture.Server.{Server}
use tenantflow.Fixture.Start.{acme, acme_server, acme_world}

-- Nothing else runs.
plan_kept : (w w' : World Server) → Alone w w' → plan_of acme w' ≡ plan_of acme w
plan_kept w w' r = absurd r

upgrade_raises_at_most_once_example :
    AtOneOf acme
      (plan_of acme (acme_world active acme_server []))
      (upgrade_tenant_workflow three_attempts acme (acme_world active acme_server [])).1
upgrade_raises_at_most_once_example =
    upgrade_raises_at_most_once three_attempts_laws acme plan_kept
      (acme_world active acme_server [])

abbrev backup_of_day : ℕ → Backup
backup_of_day n = record {
  id = n;
  tenant_id = acme;
  filename = codes "acme.sql";
  status = some BackupStatus.completed;
  created_at = n;
  completed_at = some n;
}
