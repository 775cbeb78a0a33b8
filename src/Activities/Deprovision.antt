-- ===== src/Activities/Deprovision.antt =====
-- internal/activities/deprovision.go and internal/activities/delete.go: the steps of a deletion.
use tenantflow.Prelude.{Text, ⊤, [], ◌∷◌}
use tenantflow.Model.{AuditEventType, active, failed, deleting, deleted, literal}
use tenantflow.World.{Act, ◌>>◌, external}
use tenantflow.Cloud.Provider.{CloudProvider}
use tenantflow.Activities.Common.{transition, record_event}

module _ {S : Type 0} where
  unfoldable pub mark_tenant_deleting : Text → Act S ⊤
  mark_tenant_deleting id = do
    transition id deleting (active ∷ failed ∷ [])
    record_event id AuditEventType.tenant_deleting []

  unfoldable pub mark_tenant_deleted : Text → Act S ⊤
  mark_tenant_deleted id = do
    transition id deleted (deleting ∷ [])
    record_event id AuditEventType.tenant_deleted []

  unfoldable pub restore_tenant_after_cancel : Text → Act S ⊤
  restore_tenant_after_cancel id = do
    transition id active (deleting ∷ [])
    record_event id AuditEventType.tenant_delete_cancelled
        (("reason", literal "grace period cancelled") ∷ [])

  unfoldable pub mark_tenant_delete_failed : Text → Act S ⊤
  mark_tenant_delete_failed id =
      record_event id AuditEventType.tenant_delete_failed (("reason", literal "saga failed") ∷ [])

module _ {S : Type 0} (p : CloudProvider S) where
  unfoldable pub deprovision_tenant : Text → Act S ⊤
  deprovision_tenant id = do
    external (p.drop_database id)
    external (p.drop_tenant_role id)
    record_event id AuditEventType.tenant_deprovisioned
        (("teardown", literal "database and owner role dropped") ∷ [])
