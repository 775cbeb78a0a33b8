-- ===== src/Handlers/Permitted.antt =====
-- Which requests of internal/handler/tenant.go may start a workflow.
use tenantflow.Prelude.{ℕ, Text, ◌≡◌, true, ◌⊎◌, List, some}
use tenantflow.Model.{IsolationMode, active, failed, deleting}
use tenantflow.World.{World}
use tenantflow.Cloud.Names.{safe_id, tenant_database_name}
use tenantflow.Lifecycle.Status.{status_of}
use tenantflow.Recorder.{Instance}
use tenantflow.Handlers.{
  Start, StartAnswer, SignalAnswer, Reply, create_tenant_request, delete_tenant,
}
use tenantflow.Handlers.Retry.{retry_tenant}
use tenantflow.Handlers.Guards.{
  SagaRequest, saga_request, sagas_need_active, delete_needs_stable, create_has_valid_name,
}
use tenantflow.Handlers.Replay.{dead_letter_in, HasFailedDeletion, replay_needs_failed_run}

pub data Request : Type 0 where
  create : IsolationMode → Request
  delete : Request
  saga : SagaRequest → Request
  -- with the rows of the recorder
  retry : List Instance → Request

module _ {S : Type 0} (start : Start → StartAnswer) (signal : Text → SignalAnswer) (grace : ℕ)
    (id : Text) where
  abbrev pub answer_request : Request → World S → Reply × World S
  answer_request (create mode) = create_tenant_request start signal grace (some (id, mode))
  answer_request delete = delete_tenant start signal grace id
  answer_request (saga r) = saga_request start signal grace id r
  answer_request (retry rows) = retry_tenant start signal grace (dead_letter_in true rows) id

  abbrev pub IsPermitted : Request → World S → Type 0
  IsPermitted (create mode) w = safe_id (tenant_database_name id) ≡ true
  IsPermitted delete w = (status_of id w ≡ some active) ⊎ (status_of id w ≡ some failed)
  IsPermitted (saga r) w = status_of id w ≡ some active
  IsPermitted (retry rows) w =
      (status_of id w ≡ some failed)
      ⊎ ((status_of id w ≡ some deleting) × HasFailedDeletion id rows)

  -- The API asks Temporal for a workflow only if it may: for a provisioning the database of the
  -- tenant's ID has a valid name; for a deletion the tenant's row is active or failed; for an upgrade,
  -- a migration, a backup or a restore it is active; and for a retry it is failed, or it is deleting
  -- and a failed run of a deletion of the tenant stands in the recorder's table, whose query is
  -- answered.
  pub starts_meet_guards :
      (r : Request) (s : Start) (w : World S)
      → (answer_request r w).0.asked ≡ some s
      → IsPermitted r w
  starts_meet_guards (create mode) s w e = create_has_valid_name start signal grace id mode s w e
  starts_meet_guards delete s w e = delete_needs_stable start signal grace id s w e
  starts_meet_guards (saga r) s w e = sagas_need_active start signal grace id r s w e
  starts_meet_guards (retry rows) s w e = replay_needs_failed_run start signal grace id rows s w e
