-- ===== src/Handlers.antt =====
-- internal/handler/tenant.go: the endpoints that start or signal a workflow. A reply is the status
-- code with what the handler asked of Temporal; the JSON bodies and the texts of errors are left out.
pub mod Retry
pub mod Replay
pub mod Permitted
pub mod Guards
pub mod Reads
pub mod ReadOnly
use tenantflow.Prelude.{
  ℕ, zero, suc, Int64, pos, negsuc, positive, Text, ⊤, Bool, true, false, List, [], ◌∷◌, ◌++◌,
  Option, none, some, codes, length, leb, ltb, ◌&&◌, ◌||◌, if◌then◌else◌, text_eq, ◌<◌, ◌≤◌,
}
use tenantflow.Model.{
  Tenant, TenantStatus, active, failed, deleting, deleted, same_status, IsolationMode, dedicated,
  shared, unset, unknown, AuditEventType, text,
}
use tenantflow.World.{World, Act, Result, ok, err, Error}
use tenantflow.Cloud.Names.{tenant_id_pattern}
use tenantflow.Repository.{get_tenant, write_event}
use tenantflow.Activities.Common.{is_not_found}
use tenantflow.Activities.Provision.{mode_or_dedicated}
use tenantflow.Workflow.Delete.{DeleteInput}
use tenantflow.Lifecycle.Control.{Launch}

-- WORKFLOW_ID_REUSE_POLICY_...
pub data ReusePolicy : Type 0 where
  reject_duplicate allow_duplicate allow_duplicate_failed_only : ReusePolicy

-- The call of ExecuteWorkflow.
pub record Start : Type 0 where
  pub workflow_id : Text
  pub policy : ReusePolicy
  pub launch : Launch

-- What it answers: the run's id, WorkflowExecutionAlreadyStarted, or another error.
pub data StartAnswer : Type 0 where
  started : Text → StartAnswer
  already_started start_failed : StartAnswer

-- The answer of SignalWorkflow: done, serviceerror.NotFound, or another error.
pub data SignalAnswer : Type 0 where
  signalled no_such_run signal_failed : SignalAnswer

pub record Reply : Type 0 where
  pub code : ℕ
  -- the start that was asked for, if any
  pub asked : Option Start

abbrev pub refuse : ℕ → Reply
refuse n = record { code = n; asked = none }

abbrev pub known_mode : IsolationMode → Bool
known_mode dedicated = true
known_mode shared = true
known_mode unset = false
known_mode (unknown _) = false

-- ListFailedRuns: the limit of the query, from the parameter as Atoi reads it (`none`: absent, or
-- not a number).
unfoldable pub failed_runs_limit : Option Int64 → ℕ
failed_runs_limit none = 50
failed_runs_limit (some (negsuc n)) = 50
failed_runs_limit (some (pos n)) = if ltb 0 n && leb n 100 then n else 50

-- ExecuteWorkflow and the mapping of its error, with the code for a run that is already there.
abbrev pub answer_start : ℕ → Start → StartAnswer → Reply
answer_start taken s (started run_id) = record { code = 202; asked = some s }
answer_start taken s already_started = record { code = taken; asked = some s }
answer_start taken s start_failed = record { code = 500; asked = some s }

abbrev pub execute_workflow : (Start → StartAnswer) → Start → Reply
execute_workflow start s = answer_start 409 s (start s)

abbrev pub answer_signal : SignalAnswer → Reply
answer_signal signalled = refuse 202
answer_signal no_such_run = refuse 409
answer_signal signal_failed = refuse 500

module _ {S : Type 0} where
  abbrev pub answer_lookup :
      (Tenant → World S → Reply × World S) → Result Tenant → World S → Reply × World S
  answer_lookup handle (ok tenant) w = handle tenant w
  answer_lookup handle (err e) w = (refuse (if is_not_found e then 404 else 500), w)

  -- GetTenant and the mapping of its error.
  unfoldable pub with_tenant :
      Text → (Tenant → World S → Reply × World S) → World S → Reply × World S
  with_tenant id handle w = let (r, w') = get_tenant id w in answer_lookup handle r w'

module _ {S : Type 0} (start : Start → StartAnswer) (signal : Text → SignalAnswer) (grace : ℕ) where
  -- The body as decoded: the id and the mode, or `none` for invalid JSON.
  unfoldable pub create_tenant_request : Option (Text × IsolationMode) → World S → Reply × World S
  create_tenant_request none w = (refuse 400, w)
  create_tenant_request (some (id, mode)) w =
      if tenant_id_pattern id
      then (if known_mode (mode_or_dedicated mode)
          then (
            execute_workflow start (record {
              workflow_id = codes "provision-" ++ id;
              policy = reject_duplicate;
              launch = Launch.provision (codes "provision-" ++ id) id (mode_or_dedicated mode);
            }),
            w,
          )
          else (refuse 400, w))
      else (refuse 400, w)

  unfoldable pub reconcile_tenant : Text → World S → Reply × World S
  unfolding with_tenant
  reconcile_tenant id w =
      if tenant_id_pattern id
      then with_tenant id
          (λ tenant u. (
            execute_workflow start (record {
              workflow_id = codes "reconcile-" ++ id;
              policy = allow_duplicate;
              launch = Launch.reconcile (codes "reconcile-" ++ id) id;
            }),
            u,
          ))
          w
      else (refuse 400, w)

  unfoldable pub delete_tenant : Text → World S → Reply × World S
  unfolding with_tenant
  delete_tenant id = with_tenant id (λ tenant u.
      if same_status tenant.status deleting
      then (refuse 409, u)
      else if same_status tenant.status deleted
      then (refuse 409, u)
      else if same_status tenant.status active || same_status tenant.status failed
      then (
        execute_workflow start (record {
          workflow_id = codes "delete-" ++ id;
          policy = allow_duplicate_failed_only;
          launch = Launch.delete (record {
            tenant_id = id;
            grace_period = grace;
            resume = false;
            isolation_mode = tenant.isolation_mode;
          });
        }),
        u,
      )
      else (refuse 409, u))

  unfoldable pub cancel_tenant_delete : Text → World S → Reply × World S
  unfolding with_tenant
  cancel_tenant_delete id = with_tenant id (λ tenant u.
      if same_status tenant.status deleting
      then (answer_signal (signal (codes "delete-" ++ id)), u)
      else (refuse 409, u))

  -- The four operations that an active tenant only can be asked for.
  unfoldable pub when_active : Text → Start → World S → Reply × World S
  unfolding with_tenant
  when_active id s = with_tenant id (λ tenant u.
      if same_status tenant.status active then (execute_workflow start s, u) else (refuse 409, u))

  unfoldable pub upgrade_tenant : Text → World S → Reply × World S
  unfolding when_active
  upgrade_tenant id = when_active id (record {
    workflow_id = codes "upgrade-" ++ id;
    policy = reject_duplicate;
    launch = Launch.upgrade id;
  })

  unfoldable pub migrate_tenant : Text → World S → Reply × World S
  unfolding when_active
  migrate_tenant id = when_active id (record {
    workflow_id = codes "migrate-" ++ id;
    policy = reject_duplicate;
    launch = Launch.migrate id;
  })

  unfoldable pub backup_tenant : Text → World S → Reply × World S
  unfolding when_active
  backup_tenant id = when_active id (record {
    workflow_id = codes "backup-" ++ id;
    policy = reject_duplicate;
    launch = Launch.backup id;
  })

  -- The backup id of the body, or `none` for invalid JSON.
  unfoldable pub restore_tenant : Text → Option Int64 → World S → Reply × World S
  unfolding when_active
  restore_tenant id none w = (refuse 400, w)
  restore_tenant id (some field) w = elim (positive field) [
    | none ↦ (refuse 400, w)
    | some n ↦
        when_active id
          (record {
            workflow_id = codes "restore-" ++ id;
            policy = reject_duplicate;
            launch = Launch.restore id n;
          })
          w
  ]
