-- ===== src/Tests/Contents.antt =====
-- Requests of the migration and of the restore, and another tenant's database behind a migration.
use tenantflow.Prelude.{Text, ⊤, true, false, ◌≡◌, refl, [], ◌∷◌, none, some, codes, text_eq}
use tenantflow.Model.{Backup, BackupStatus, active}
use tenantflow.World.{World, Result, ok, find_tenant}
use tenantflow.Repository.{write_event, get_backup, find_backup}
use tenantflow.Cloud.Names.{tenant_database_name, new_db_name, backup_name}
use tenantflow.Activities.Common.{record_event}
use tenantflow.Activities.Migrate.{
  mark_tenant_migrating, mark_tenant_migrated, migrate_data, promote, switch_traffic, raise_joined,
}
use tenantflow.Activities.Restore.{
  mark_tenant_restoring, mark_tenant_restored, pre_restore_snapshot, restore_data,
}
use tenantflow.Workflow.Migrate.{migrate_tenant_workflow}
use tenantflow.Workflow.Restore.{restore_tenant_workflow}
use tenantflow.Cloud.Journal.{Journalled, journalled, IsGuarded}
use tenantflow.Cloud.Docker.Operations.{docker_provider}
use tenantflow.Contracts.Migration.{IsCopied, IsBehindCopy, EndsSwitched}
use tenantflow.Contracts.Migration.Requests.{migrate_copies_first, migrate_success_switches}
use tenantflow.Contracts.Restoration.{row_of, IsOwnFile, IsBehindDump, EndsRestored}
use tenantflow.Contracts.Restoration.Requests.{restore_dumps_first, restore_success_restores_own}
use tenantflow.Fixture.Host.{Host, host_docker}
use tenantflow.Lifecycle.Control.{Outside, Launch, run_workflow}
use tenantflow.Isolation.Tenants.{other_databases_are_kept}
use tenantflow.Fixture.Executor.{three_attempts, three_attempts_laws}
use tenantflow.Fixture.Disk.{
  Disk, put, disk_cloud, disk_contents, disk-Frames, with_database, disk_identity,
  disk-IdentityFrames,
}
use tenantflow.Fixture.Start.{acme, acme_row}

-- The two workflows on it, computed.
unfoldable migrate_acme : World (Journalled Disk) → Result ⊤ × World (Journalled Disk)
unfolding migrate_tenant_workflow mark_tenant_migrating mark_tenant_migrated migrate_data promote
    switch_traffic raise_joined record_event write_event tenant_database_name new_db_name
    backup_name
migrate_acme = migrate_tenant_workflow three_attempts (journalled disk_cloud) acme

unfoldable restore_acme : World (Journalled Disk) → Result ⊤ × World (Journalled Disk)
unfolding restore_tenant_workflow mark_tenant_restoring mark_tenant_restored pre_restore_snapshot
    restore_data get_backup record_event write_event find_backup tenant_database_name backup_name
restore_acme = restore_tenant_workflow three_attempts (journalled disk_cloud) acme 1

abbrev acme_data : Text
acme_data = codes "acme data"

abbrev last_week : Text
last_week = codes "acme_20260101-000000.sql"

abbrev older_data : Text
older_data = codes "older data"

abbrev acme_disk : Disk
acme_disk = record {
  databases = put (tenant_database_name acme) (some acme_data) (λ n. none);
  files = put last_week (some older_data) (λ f. none);
  stamp = codes "20260108-000000";
}

abbrev acme_backup : Backup
acme_backup = record {
  id = 1;
  tenant_id = acme;
  filename = last_week;
  status = some BackupStatus.completed;
  created_at = 3;
  completed_at = some 4;
}

abbrev acme_on_disk : World Disk
acme_on_disk = record {
  tenants = acme_row active ∷ [];
  audit = [];
  backups = acme_backup ∷ [];
  next_backup_id = 2;
  quotas = [];
  now = 10;
  answers = [];
  ext = acme_disk;
}

abbrev acme_host : Host
acme_host = record {
  cluster = record { databases = []; roles = []; sessions = [] };
  command = [];
  exit_code = 0;
}

-- The journal of a run begins empty.
abbrev acme_journalled : World (Journalled Disk)
acme_journalled = record {
  tenants = acme_on_disk.tenants;
  audit = [];
  backups = acme_on_disk.backups;
  next_backup_id = 2;
  quotas = [];
  now = 10;
  answers = [];
  ext = (acme_disk, []);
}

-- The same tables, and the host on which the program's own provider works.
abbrev acme_on_host : World (Journalled Host)
acme_on_host = record {
  tenants = acme_on_disk.tenants;
  audit = [];
  backups = acme_on_disk.backups;
  next_backup_id = 2;
  quotas = [];
  now = 10;
  answers = [];
  ext = (acme_host, []);
}

migrate_copies_first_example :
    IsGuarded
      (IsBehindCopy (tenant_database_name acme) (new_db_name acme))
      (migrate_tenant_workflow three_attempts
        (journalled (docker_provider host_docker))
        acme
        acme_on_host).1.ext.1
migrate_copies_first_example =
    migrate_copies_first (docker_provider host_docker) three_attempts_laws acme (λ w w' r. absurd r)
      acme_on_host refl

restore_dumps_first_example :
    IsGuarded
      (IsBehindDump acme (row_of 1 acme_on_host) (tenant_database_name acme))
      (restore_tenant_workflow three_attempts
        (journalled (docker_provider host_docker))
        acme
        1
        acme_on_host).1.ext.1
restore_dumps_first_example =
    restore_dumps_first (docker_provider host_docker) three_attempts_laws acme 1
      (λ w w' r. absurd r) acme_on_host refl

migrate_ok : (migrate_acme acme_journalled).0 ≡ ok tt
unfolding migrate_acme find_tenant text_eq
migrate_ok = refl

restore_ok : (restore_acme acme_journalled).0 ≡ ok tt
unfolding restore_acme find_tenant text_eq
restore_ok = refl

migrate_success_switches_example :
    ((f : Text) × IsCopied
        (tenant_database_name acme)
        (new_db_name acme)
        f
        (migrate_tenant_workflow three_attempts
          (journalled disk_cloud)
          acme
          acme_journalled).1.ext.1)
    × EndsSwitched
        (tenant_database_name acme)
        (new_db_name acme)
        (migrate_tenant_workflow three_attempts
          (journalled disk_cloud)
          acme
          acme_journalled).1.ext.1
unfolding migrate_acme
migrate_success_switches_example =
    migrate_success_switches disk_cloud three_attempts_laws acme (λ w w' r. absurd r)
      acme_journalled refl migrate_ok

restore_success_restores_own_example :
    (file : Text) × IsOwnFile acme (row_of 1 acme_journalled) file
    × EndsRestored
        (tenant_database_name acme)
        file
        (restore_tenant_workflow three_attempts
          (journalled disk_cloud)
          acme
          1
          acme_journalled).1.ext.1
unfolding restore_acme
restore_success_restores_own_example =
    restore_success_restores_own disk_cloud three_attempts_laws acme 1 (λ w w' r. absurd r)
      acme_journalled refl restore_ok

-- Another tenant beside acme.
abbrev globex : Text
globex = codes "globex"

abbrev disk_outside : Outside Disk
disk_outside = record {
  temporal = three_attempts;
  cloud = disk_cloud;
  identity = disk_identity;
  wait = λ n w. (false, w);
  versioned = true;
}

abbrev two_tenants : World Disk
two_tenants = record acme_on_disk {
  ext = with_database (tenant_database_name globex) (some (codes "globex data")) acme_disk;
}

other_databases_are_kept_example :
    (run_workflow disk_outside (Launch.migrate acme) two_tenants).1.ext.databases
      (tenant_database_name globex)
    ≡ two_tenants.ext.databases (tenant_database_name globex)
other_databases_are_kept_example =
    other_databases_are_kept disk_outside disk_contents disk-Frames disk-IdentityFrames
      three_attempts_laws (Launch.migrate acme) globex two_tenants (λ e. cc) (λ e. cc) (λ e. cc)
      (λ u u' r. absurd r) (λ n u. refl)
