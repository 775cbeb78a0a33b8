-- ===== src/Tests/Backups.antt =====
-- A backup whose file cannot be restored.
use tenantflow.Prelude.{◌≤◌, [], inl}
use tenantflow.Model.{active}
use tenantflow.World.{err, other}
use tenantflow.Cloud.Provider.{CloudProvider}
use tenantflow.Activities.Reconcile.{count_completed}
use tenantflow.Workflow.Backup.{backup_tenant_workflow}
use tenantflow.Contracts.Unverified.{unverified_backup_never_completed}
use tenantflow.Fixture.Executor.{three_attempts, three_attempts_laws}
use tenantflow.Fixture.Server.{Server, server_cloud}
use tenantflow.Fixture.Start.{acme, acme_server, acme_world}

abbrev unreadable_files : CloudProvider Server
unreadable_files = record server_cloud {
  restore_database_from_backup = λ db file s. (err other, s);
}

unverified_backup_never_completed_example :
    count_completed
      (backup_tenant_workflow three_attempts unreadable_files acme
        (acme_world active acme_server [])).1.backups
    ≤ count_completed (acme_world active acme_server []).backups
unverified_backup_never_completed_example =
    unverified_backup_never_completed unreadable_files three_attempts_laws (λ w w' r. absurd r) acme
      (acme_world active acme_server []) (inl (λ file s e. cc e))
