-- ===== src/Tests/Queue.antt =====
-- A deletion that failed, in the recorder's table and in the dead-letter queue.
use tenantflow.Prelude.{Text, true, ◌≡◌, ◌≤◌, refl, [], ◌∷◌, ◌⊎◌, some, codes, length, text_eq}
use tenantflow.Model.{deleting}
use tenantflow.World.{find_tenant, statement}
use tenantflow.Repository.{get_tenant, select_tenant}
use tenantflow.Repository.Sorted.{Stands, NewestFirst, AllFrom}
use tenantflow.Recorder.{Instance, Recorded, Reached, has_run, was_seen, execute_activity}
use tenantflow.Recorder.Queue.{failed_rows}
use tenantflow.Recorder.Rows.{HasOneRowEach, execute_activity-HasOneRowEach, failed_rows-newest}
use tenantflow.Handlers.{Start, StartAnswer, started, SignalAnswer, signalled}
use tenantflow.Handlers.Retry.{retry_tenant}
use tenantflow.Handlers.Replay.{
  delete_run, dead_letter_in, resumed_start, failed_deletion_is_resumed,
}
use tenantflow.Fixture.Start.{acme, acme_row, acme_server, acme_world}

abbrev accept : Start → StartAnswer
accept s = started (codes "run-2")

abbrev hear : Text → SignalAnswer
hear id = signalled

abbrev at_five : Reached
at_five = record { takes_effect = true; clock = 5 }

abbrev message : Text
message = codes "deprovision failed"

-- A run of long ago, which failed too.
abbrev older_run : Instance
older_run = record {
  tenant_id = some acme;
  workflow_type = codes "BackupTenantWorkflow";
  workflow_id = codes "backup-acme";
  run_id = codes "run-0";
  has_failed = true;
  error = some (codes "no space left");
  started_at = 2;
  finished_at = some 3;
}

abbrev before : Recorded
before = record { seen = []; rows = older_run ∷ [] }

abbrev recorded : Recorded
recorded = execute_activity (some message) at_five at_five (delete_run acme (codes "run-1")) before

execute_activity-HasOneRowEach_example : HasOneRowEach recorded.rows
unfolding has_run
execute_activity-HasOneRowEach_example =
    execute_activity-HasOneRowEach (some message) at_five at_five (delete_run acme (codes "run-1"))
      before (refl, tt)

failed_rows-newest_example :
    NewestFirst (λ (i : Instance). i.started_at) (failed_rows 50 before.rows)
    × (length (failed_rows 50 before.rows) ≤ 50)
    × ((i : Instance)
        → Stands i (failed_rows 50 before.rows)
        → Stands i before.rows × (i.has_failed ≡ true))
    × ((i : Instance)
        → Stands i before.rows
        → i.has_failed ≡ true
        → Stands i (failed_rows 50 before.rows)
          ⊎ ((length (failed_rows 50 before.rows) ≡ 50)
              × AllFrom (λ (j : Instance). j.started_at) i.started_at (failed_rows 50 before.rows)))
failed_rows-newest_example = failed_rows-newest 50 before.rows

failed_deletion_is_resumed_example :
    (retry_tenant accept hear 60
      (dead_letter_in true recorded.rows)
      acme
      (acme_world deleting acme_server [])).0.asked
    ≡ some (resumed_start 60 (acme_row deleting))
unfolding was_seen has_run get_tenant select_tenant find_tenant text_eq statement
failed_deletion_is_resumed_example =
    failed_deletion_is_resumed accept hear 60 acme (codes "run-1") message at_five at_five before
      (acme_row deleting) (acme_world deleting acme_server []) (λ e. cc e) refl refl refl refl refl
      refl
