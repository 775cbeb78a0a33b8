-- ===== src/Activities/Reconcile.antt =====
-- internal/activities/reconcile.go: desired against actual state, repair, and the audit of both.
pub mod Drift
pub mod Desired
pub mod Latest
pub mod Active
use tenantflow.Prelude.{
  ℕ, Text, ⊤, Bool, true, false, [], ◌∷◌, List, Option, none, some, suc, map, if◌then◌else◌, ◌||◌,
  codes,
}
use tenantflow.Model.{
  Tenant, Backup, BackupStatus, is_completed, TenantSpec, TenantStatus, IsolationMode, same_status,
  active, is_dedicated, DatabaseState, ReconcileActualState, AuditEventType, Payload, DriftKind,
  flag, number, text, literal, kinds,
}
use tenantflow.World.{
  Act, Error, AppType, non_retryable, application, no_verified_backup, tenant_not_found, joined,
  ◌>>=◌, ◌>>◌, pure, raise, or_else, external,
}
use tenantflow.Cloud.Names.{tenant_database_name}
use tenantflow.Cloud.Provider.{CloudProvider}
use tenantflow.Repository.{get_tenant, list_tenants, list_backups, write_event}
use tenantflow.Activities.Common.{is_not_found}

-- IsNoVerifiedBackup: the sentinel travels as the Type of an ApplicationError.
unfoldable pub is_no_verified_backup : Error → Bool
is_no_verified_backup (non_retryable no_verified_backup) = true
is_no_verified_backup (application no_verified_backup) = true
is_no_verified_backup (joined a b) = is_no_verified_backup a || is_no_verified_backup b
is_no_verified_backup _ = false

unfoldable pub lookup_error : Error → Error
unfolding is_not_found
lookup_error e = if is_not_found e then non_retryable tenant_not_found else e

abbrev pub spec_of : Tenant → TenantSpec
spec_of t = record {
  tenant_id = t.tenant_id;
  status = t.status;
  isolation_mode = t.isolation_mode;
  require_database = is_dedicated t.isolation_mode;
  require_backup = is_dedicated t.isolation_mode;
}

-- b.Status == completed
unfoldable pub backup_completed : Backup → Bool
backup_completed b = elim b.status [ none ↦ false | some s ↦ is_completed s ]

unfoldable pub count_completed : List Backup → ℕ
unfolding backup_completed
count_completed [] = 0
count_completed (b ∷ bs) =
    let rest = count_completed bs in if backup_completed b then suc rest else rest

unfoldable pub first_completed : List Backup → Option Backup
unfolding backup_completed
first_completed [] = none
first_completed (b ∷ bs) = if backup_completed b then some b else first_completed bs

abbrev pub no_database : DatabaseState
no_database = record { exists = false; owner_role = []; public_connect = false }

module _ {S : Type 0} where
  unfoldable pub resolve_tenant_spec : Text → Act S TenantSpec
  resolve_tenant_spec id = do
    tenant ← or_else (get_tenant id) (λ e. raise (lookup_error e))
    pure (spec_of tenant)

  -- writeAudit: the events of a reconciliation carry the workflow's id.
  unfoldable pub write_audit : Text → Text → AuditEventType → Payload → Act S ⊤
  write_audit workflow_id id kind payload = write_event (record {
    tenant_id = id;
    workflow_id = some workflow_id;
    event_type = kind;
    actor = "workflow";
    payload = payload;
    created_at = 0;
  })

module _ {S : Type 0} (workflow_id : Text) where
  unfoldable pub record_reconcile_drift : Text → List DriftKind → Act S ⊤
  record_reconcile_drift id drifts =
      write_audit workflow_id id AuditEventType.tenant_drift_detected
        (("drifts", kinds drifts) ∷ [])

  unfoldable pub mark_reconcile_converged : Text → List DriftKind → Act S ⊤
  mark_reconcile_converged id repaired =
      write_audit workflow_id id AuditEventType.tenant_reconcile_converged
        (("converged", flag true) ∷ ("repaired", kinds repaired) ∷ [])

  -- The reason names the status; its text is not modelled.
  unfoldable pub mark_reconcile_skipped : Text → Act S ⊤
  mark_reconcile_skipped id =
      write_audit workflow_id id AuditEventType.tenant_reconcile_skipped
        (("reason", literal "tenant status") ∷ [])

  unfoldable pub mark_reconcile_failed : Text → Act S ⊤
  mark_reconcile_failed id =
      write_audit workflow_id id AuditEventType.tenant_reconcile_failed
        (("reason", literal "drift remains after reconciliation") ∷ [])

  unfoldable pub mark_reconcile_unrecoverable : Text → Act S ⊤
  mark_reconcile_unrecoverable id =
      write_audit workflow_id id AuditEventType.tenant_reconcile_unrecoverable
        (("reason", literal "database is missing and no verified backup exists") ∷ [])

module _ {S : Type 0} (p : CloudProvider S) where
  unfoldable pub probe_database : TenantSpec → Act S (DatabaseState × Bool)
  probe_database spec =
      let name = tenant_database_name spec.tenant_id in
      if spec.require_database
      then (do
        state ← external (p.inspect_database name)
        role ← external (p.role_exists name)
        pure (state, role))
      else pure (no_database, false)

  unfoldable pub probe_backups : TenantSpec → Act S ℕ
  probe_backups spec =
      if spec.require_backup
      then (do backups ← list_backups spec.tenant_id; pure (count_completed backups))
      else pure 0

  unfoldable pub probe_tenant_actual_state : TenantSpec → Act S ReconcileActualState
  unfolding probe_database probe_backups
  probe_tenant_actual_state spec = do
    observed ← probe_database spec
    completed ← probe_backups spec
    pure (record {
      tenant_id = spec.tenant_id;
      database = observed.0;
      role_exists = observed.1;
      completed_backups = completed;
    })

  unfoldable pub ensure_tenant_database : Text → Act S ⊤
  ensure_tenant_database id = do
    state ← external (p.inspect_database (tenant_database_name id))
    if state.exists
        then external (p.ensure_database_ownership (tenant_database_name id))
        else external (p.create_database id)

  -- The residue of a crashed attempt is dropped first, and the database is made and filled anew.
  unfoldable pub restore_latest : Text → Text → Backup → Act S ⊤
  restore_latest workflow_id id latest = do
    let name = tenant_database_name id
    external (p.drop_database id)
    external (p.create_database id)
    external (p.restore_database_from_backup name latest.filename)
    external (p.ensure_database_ownership name)
    external (p.validate_database name)
    write_audit workflow_id id AuditEventType.tenant_reconcile_restored
        (("backup_id", number latest.id) ∷ ("filename", text latest.filename) ∷ [])

  unfoldable pub restore_if_any : Text → Text → Option Backup → Act S ⊤
  restore_if_any workflow_id id none = raise (non_retryable no_verified_backup)
  restore_if_any workflow_id id (some latest) = restore_latest workflow_id id latest

  unfoldable pub restore_tenant_from_backup : Text → Text → Act S ⊤
  unfolding restore_if_any
  restore_tenant_from_backup workflow_id id = do
    backups ← list_backups id
    restore_if_any workflow_id id (first_completed backups)
