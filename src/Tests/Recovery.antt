-- ===== src/Tests/Recovery.antt =====
-- An active tenant whose database is gone.
use tenantflow.Prelude.{◌≡◌, refl, [], none, text_eq}
use tenantflow.Model.{active}
use tenantflow.World.{World, ok, find_tenant}
use tenantflow.Cloud.Names.{tenant_database_name}
use tenantflow.Repository.{backups_of}
use tenantflow.Activities.Reconcile.{count_completed}
use tenantflow.Workflow.Reconcile.{reconcile_tenant_workflow, converged_result}
use tenantflow.Contracts.Missing.{SeesMissing, IsUnrecoverable}
use tenantflow.Contracts.Escalation.{missing_database_left, missing_database_escalates}
use tenantflow.Fixture.Executor.{three_attempts, three_attempts_laws, Alone}
use tenantflow.Fixture.Server.{Server, server_cloud, find_db}
use tenantflow.Fixture.Start.{acme, empty_server, acme_world, acme_row}

abbrev Gone : Server → Type 0
Gone s = find_db (tenant_database_name acme) s.databases ≡ none

server_cloud-SeesMissing : SeesMissing server_cloud acme Gone
server_cloud-SeesMissing = record {
  inspected = λ s gone. gone;
  absent = λ s d gone e. cc (e, gone);
  role_looked_up = λ s gone. gone;
}

acme_world-IsUnrecoverable : IsUnrecoverable Gone acme (acme_world active empty_server [])
unfolding find_tenant text_eq backups_of count_completed
acme_world-IsUnrecoverable = record {
  row = acme_row active;
  row_found = refl;
  row_active = refl;
  row_dedicated = refl;
  provider_state = refl;
  no_backup = refl;
}

nobody :
    (w w' : World Server) → Alone w w' → IsUnrecoverable Gone acme w → IsUnrecoverable Gone acme w'
nobody w w' r i = absurd r

missing_database_left_example :
    IsUnrecoverable Gone acme
      (reconcile_tenant_workflow three_attempts server_cloud acme acme
        (acme_world active empty_server [])).1
missing_database_left_example =
    missing_database_left acme server_cloud-SeesMissing three_attempts_laws nobody acme
      (acme_world active empty_server []) acme_world-IsUnrecoverable

missing_database_escalates_example : ¬ (
    (reconcile_tenant_workflow three_attempts server_cloud acme acme
      (acme_world active empty_server [])).0
    ≡ ok (converged_result acme []))
missing_database_escalates_example =
    missing_database_escalates acme server_cloud-SeesMissing three_attempts_laws nobody acme
      (acme_world active empty_server []) (converged_result acme []) acme_world-IsUnrecoverable
