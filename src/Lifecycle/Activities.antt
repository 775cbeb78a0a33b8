-- ===== src/Lifecycle/Activities.antt =====
-- Every activity follows the relation, whatever the providers and the database answer.
use tenantflow.Prelude.{Text, ◌≡◌, refl, true, List, [], ◌∷◌, Option, none, some}
use tenantflow.Model.{
  TenantStatus, provisioning, active, failed, deleting, deleted, any_status, AuditEventType,
  Payload, IsolationMode, workflow_event,
}
use tenantflow.Cloud.Provider.{CloudProvider, IdentityProvider}
use tenantflow.Lifecycle.Steps.{
  Edge, activate, recover, fail, fail_again, delete_active, delete_failed, cancel, finish,
}
use tenantflow.Lifecycle.Follows.{Follows, call_rules}
use tenantflow.Lifecycle.Repository.{
  Follows-create_tenant, Follows-get_tenant, Follows-update_tenant_status_from, Follows-write_event,
  Follows-create_backup, Follows-get_backup, Follows-list_backups, Follows-mark_backup_completed,
  Follows-mark_backup_failed, Follows-set_quota, Follows-get_quota, Follows-list_tenants,
}
use tenantflow.Activities.Common.{transition, record_event}
use tenantflow.Activities.Provision.{
  create_tenant_record, mark_tenant_active, mark_tenant_failed, provision_database,
  provision_tenant, drop_tenant_database,
}
use tenantflow.Activities.Deprovision.{
  mark_tenant_deleting, mark_tenant_deleted, restore_tenant_after_cancel, mark_tenant_delete_failed,
  deprovision_tenant,
}
use tenantflow.Activities.Identity.{
  create_if_missing, provision_tenant_identity, delete_tenant_identity, delete_if_found,
  delete_tenant_identity_by_tenant,
}

pub ruleset statement_rules = (
  call_rules, Follows-get_tenant, Follows-write_event, Follows-create_backup, Follows-get_backup,
  Follows-list_backups, Follows-mark_backup_completed, Follows-mark_backup_failed,
  Follows-set_quota, Follows-get_quota, Follows-list_tenants,
)

module _ {S : Type 0} where
  pub Follows-record_event :
      (id : Text) (kind : AuditEventType) (payload : Payload)
      → Follows {S = S} (record_event id kind payload)
  unfolding record_event
  Follows-record_event id kind payload = Follows-write_event (workflow_event id kind payload)

  pub Follows-transition :
      (id : Text) (to : TenantStatus) (from : List TenantStatus)
      → ((s : TenantStatus) → any_status from s ≡ true → Edge (some s) (some to))
      → Follows {S = S} (transition id to from)
  unfolding transition
  Follows-transition id to from edge =
      search (call_rules, Follows-update_tenant_status_from id to from edge)

edges_to_active :
    (s : TenantStatus)
    → any_status (provisioning ∷ failed ∷ []) s ≡ true
    → Edge (some s) (some active)
unfolding any_status
edges_to_active provisioning h = activate
edges_to_active failed h = recover
edges_to_active _ h = cc

edges_to_failed :
    (s : TenantStatus)
    → any_status (provisioning ∷ failed ∷ []) s ≡ true
    → Edge (some s) (some failed)
unfolding any_status
edges_to_failed provisioning h = fail
edges_to_failed failed h = fail_again
edges_to_failed _ h = cc

edges_to_deleting :
    (s : TenantStatus) → any_status (active ∷ failed ∷ []) s ≡ true → Edge (some s) (some deleting)
unfolding any_status
edges_to_deleting active h = delete_active
edges_to_deleting failed h = delete_failed
edges_to_deleting _ h = cc

edges_of_cancel :
    (s : TenantStatus) → any_status (deleting ∷ []) s ≡ true → Edge (some s) (some active)
unfolding any_status
edges_of_cancel deleting h = cancel
edges_of_cancel _ h = cc

edges_of_finish :
    (s : TenantStatus) → any_status (deleting ∷ []) s ≡ true → Edge (some s) (some deleted)
unfolding any_status
edges_of_finish deleting h = finish
edges_of_finish _ h = cc

module _ {S : Type 0} where
  pub Follows-create_tenant_record :
      (id workflow_id : Text) (mode : IsolationMode)
      → Follows {S = S} (create_tenant_record id workflow_id mode)
  unfolding create_tenant_record
  Follows-create_tenant_record id workflow_id mode =
      search (call_rules, Follows-write_event, Follows-create_tenant _ refl)

  pub Follows-mark_tenant_active : (id : Text) → Follows {S = S} (mark_tenant_active id)
  unfolding mark_tenant_active
  Follows-mark_tenant_active id =
      search (call_rules, Follows-record_event, Follows-transition id active _ edges_to_active)

  pub Follows-mark_tenant_failed : (id : Text) → Follows {S = S} (mark_tenant_failed id)
  unfolding mark_tenant_failed
  Follows-mark_tenant_failed id =
      search (call_rules, Follows-record_event, Follows-transition id failed _ edges_to_failed)

  pub Follows-mark_tenant_deleting : (id : Text) → Follows {S = S} (mark_tenant_deleting id)
  unfolding mark_tenant_deleting
  Follows-mark_tenant_deleting id =
      search (call_rules, Follows-record_event, Follows-transition id deleting _ edges_to_deleting)

  pub Follows-mark_tenant_deleted : (id : Text) → Follows {S = S} (mark_tenant_deleted id)
  unfolding mark_tenant_deleted
  Follows-mark_tenant_deleted id =
      search (call_rules, Follows-record_event, Follows-transition id deleted _ edges_of_finish)

  pub Follows-restore_tenant_after_cancel :
      (id : Text) → Follows {S = S} (restore_tenant_after_cancel id)
  unfolding restore_tenant_after_cancel
  Follows-restore_tenant_after_cancel id =
      search (call_rules, Follows-record_event, Follows-transition id active _ edges_of_cancel)

  pub Follows-mark_tenant_delete_failed :
      (id : Text) → Follows {S = S} (mark_tenant_delete_failed id)
  unfolding mark_tenant_delete_failed
  Follows-mark_tenant_delete_failed id = search Follows-record_event

module _ {S : Type 0} (p : CloudProvider S) where
  pub Follows-provision_tenant :
      (id : Text) (mode : IsolationMode) → Follows (provision_tenant p id mode)
  unfolding provision_tenant provision_database
  Follows-provision_tenant id mode = search (call_rules, Follows-record_event) depth 9

  pub Follows-drop_tenant_database : (id : Text) → Follows (drop_tenant_database p id)
  unfolding drop_tenant_database
  Follows-drop_tenant_database id = search (call_rules, Follows-record_event)

  pub Follows-deprovision_tenant : (id : Text) → Follows (deprovision_tenant p id)
  unfolding deprovision_tenant
  Follows-deprovision_tenant id = search (call_rules, Follows-record_event)

module _ {S : Type 0} (k : IdentityProvider S) where
  Follows-create_if_missing :
      (id : Text) (found : Option Text) → Follows (create_if_missing k id found)
  unfolding create_if_missing
  Follows-create_if_missing id none = search call_rules
  Follows-create_if_missing id (some user_id) = search call_rules

  pub Follows-provision_tenant_identity : (id : Text) → Follows (provision_tenant_identity k id)
  unfolding provision_tenant_identity
  Follows-provision_tenant_identity id = search (call_rules, Follows-create_if_missing)

  pub Follows-delete_tenant_identity : (user_id : Text) → Follows (delete_tenant_identity k user_id)
  unfolding delete_tenant_identity
  Follows-delete_tenant_identity user_id = search call_rules

  Follows-delete_if_found : (found : Option Text) → Follows (delete_if_found k found)
  unfolding delete_if_found
  Follows-delete_if_found none = search call_rules
  Follows-delete_if_found (some user_id) = search call_rules

  pub Follows-delete_tenant_identity_by_tenant :
      (id : Text) → Follows (delete_tenant_identity_by_tenant k id)
  unfolding delete_tenant_identity_by_tenant
  Follows-delete_tenant_identity_by_tenant id = search (call_rules, Follows-delete_if_found)
