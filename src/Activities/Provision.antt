-- ===== src/Activities/Provision.antt =====
-- internal/activities/provision.go
use tenantflow.Prelude.{Text, ⊤, Bool, true, false, [], ◌∷◌, some, codes, ◌&&◌, ◌==◌, if◌then◌else◌}
use tenantflow.Model.{
  IsolationMode, dedicated, shared, unset, unknown, is_shared, AuditEventType, provisioning, active,
  failed, Value, compensation_event, literal, text,
}
use tenantflow.World.{Act, other, ◌>>=◌, ◌>>◌, pure, raise, external}
use tenantflow.Cloud.Names.{tenant_database_name}
use tenantflow.Cloud.Provider.{CloudProvider}
use tenantflow.Repository.{create_tenant, write_event}
use tenantflow.Activities.Common.{transition, record_event}

-- strings.HasPrefix
abbrev pub has_prefix : Text → Text → Bool
has_prefix s [] = true
has_prefix [] (_ ∷ _) = false
has_prefix (c ∷ s) (d ∷ p) = (c == d) && has_prefix s p

abbrev pub mode_or_dedicated : IsolationMode → IsolationMode
mode_or_dedicated unset = dedicated
mode_or_dedicated m = m

-- The mode as a payload's string.
abbrev pub mode_value : IsolationMode → Value
mode_value dedicated = literal "dedicated"
mode_value shared = literal "shared"
mode_value unset = literal ""
mode_value (unknown s) = text s

module _ {S : Type 0} where
  -- The tenant id, the workflow id, the mode. The dates of the row are the database's.
  unfoldable pub create_tenant_record : Text → Text → IsolationMode → Act S ⊤
  create_tenant_record id workflow_id isolation_mode = do
    let mode = mode_or_dedicated isolation_mode
    create_tenant (record {
      tenant_id = id;
      status = provisioning;
      isolation_mode = mode;
      workflow_id = some workflow_id;
      created_at = 0;
      updated_at = 0;
    })
    write_event (record {
      tenant_id = id;
      workflow_id = some workflow_id;
      event_type = AuditEventType.tenant_created;
      actor = "workflow";
      payload = ("status", literal "provisioning") ∷ ("isolationMode", mode_value mode) ∷ [];
      created_at = 0;
    })

  -- Active is entered from provisioning, or from failed by a retry; never from deleting.
  unfoldable pub mark_tenant_active : Text → Act S ⊤
  mark_tenant_active id = do
    transition id active (provisioning ∷ failed ∷ [])
    record_event id AuditEventType.tenant_activated []

  unfoldable pub mark_tenant_failed : Text → Act S ⊤
  mark_tenant_failed id = do
    transition id failed (provisioning ∷ failed ∷ [])
    record_event id AuditEventType.tenant_failed (("reason", literal "saga compensation") ∷ [])

module _ {S : Type 0} (p : CloudProvider S) where
  -- The database is created only where it is missing; where it exists its posture is asserted again.
  unfoldable pub provision_database : Text → Act S ⊤
  provision_database id = do
    let live_db = tenant_database_name id
    st ← external (p.inspect_database live_db)
    if st.exists
        then external (p.ensure_database_ownership live_db)
        else external (p.create_database id)

  unfoldable pub provision_tenant : Text → IsolationMode → Act S ⊤
  provision_tenant id mode = if has_prefix id (codes "fail-") then raise other else do
    if is_shared mode then pure tt else provision_database id
    record_event id AuditEventType.tenant_provisioned
        (("infra", literal "simulated") ∷ ("isolationMode", mode_value mode) ∷ [])

  unfoldable pub drop_tenant_database : Text → Act S ⊤
  drop_tenant_database id = do
    external (p.drop_database id)
    external (p.drop_tenant_role id)
    record_event id AuditEventType.tenant_provision_rolled_back
        (compensation_event "DropTenantDatabase" "saga compensation")
