-- ===== src/Model/Audit.antt =====
-- internal/model/audit.go and the drift kinds of internal/model/reconcile.go: the events that the
-- activities append to the audit trail, with their payloads.
use tenantflow.Prelude.{ℕ, String, Text, Bool, true, Option, none, List, [], ◌∷◌}

-- Drift kinds: `ownership` is DriftWrongOwner.
pub data DriftKind : Type 0 where
  missing_database missing_role ownership public_connect missing_backup : DriftKind

-- AuditEventType.
pub data AuditEventType : Type 0 where
  tenant_created tenant_provisioned tenant_activated tenant_failed : AuditEventType
  tenant_deleting tenant_deprovisioned tenant_deleted : AuditEventType
  tenant_upgrading tenant_upgraded tenant_upgrade_failed tenant_quota_rolled_back : AuditEventType
  tenant_migrating tenant_migrated tenant_migrate_failed : AuditEventType
  tenant_migration_rolled_back : AuditEventType
  tenant_backing_up tenant_backup_created tenant_backup_failed : AuditEventType
  tenant_restoring tenant_restored tenant_restore_failed tenant_restore_rolled_back : AuditEventType
  tenant_delete_cancelled tenant_delete_failed tenant_delete_resumed : AuditEventType
  tenant_reprovision_requested tenant_provision_rolled_back : AuditEventType
  tenant_reconcile_started tenant_drift_detected tenant_reconcile_converged : AuditEventType
  tenant_reconcile_skipped tenant_reconcile_failed tenant_reconcile_restored : AuditEventType
  tenant_reconcile_unrecoverable : AuditEventType

-- The values that payloads hold; `literal` is a constant of the source.
pub data Value : Type 0 where
  flag : Bool → Value
  number : ℕ → Value
  literal : String → Value
  text : Text → Value
  kinds : List DriftKind → Value

-- A payload, `map[string]any`, with its keys in the order of the source.
abbrev pub Payload : Type 0
Payload = List (String × Value)

-- An event; WriteEvent leaves its created_at to the database. The row's own id is left out.
pub record AuditEvent : Type 0 where
  pub tenant_id : Text
  pub workflow_id : Option Text
  pub event_type : AuditEventType
  pub actor : String
  pub payload : Payload
  pub created_at : ℕ

-- compensationEvent: the payload of every rollback step.
abbrev pub compensation_event : String → String → Payload
compensation_event step reason =
    ("compensation", flag true) ∷ ("step", literal step) ∷ ("reason", literal reason) ∷ []

-- An event of the actor "workflow" with no workflow id, as most activities write it.
abbrev pub workflow_event : Text → AuditEventType → Payload → AuditEvent
workflow_event id kind payload = record {
  tenant_id = id;
  workflow_id = none;
  event_type = kind;
  actor = "workflow";
  payload = payload;
  created_at = 0;
}
