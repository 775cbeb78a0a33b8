-- ===== src/Tests/Lifecycle.antt =====
-- The guarantees, at runs on the stand-in server.
use tenantflow.Prelude.{refl, some, codes, [], true, ◌≡◌, List, ◌++◌, false, text_eq}
use tenantflow.Model.{active, deleted, dedicated, Tenant, AuditEvent}
use tenantflow.World.{find_tenant}
use tenantflow.Lifecycle.Control.{Launch, run_workflow}
use tenantflow.Lifecycle.Status.{status_of, ◌⟶*◌, Fixed}
use tenantflow.Lifecycle.Records.{IsConsistent}
use tenantflow.Lifecycle.Guarantees.{
  status_along_edges, deleted_is_final, audit_append_only, row_is_kept, tables-IsConsistent,
}
use tenantflow.Fixture.Start.{
  acme, acme_server, acme_world, acme_row, blank_world, outside, outside_laws,
}

abbrev provision_acme : Launch
provision_acme = Launch.provision (codes "provision-acme") acme dedicated

abbrev delete_acme : Launch
delete_acme =
    Launch.delete
      (record { tenant_id = acme; grace_period = 60; resume = false; isolation_mode = dedicated })

status_along_edges_example :
    status_of acme blank_world
    ⟶* status_of acme (run_workflow (outside false) provision_acme blank_world).1
status_along_edges_example =
    status_along_edges (outside false) (outside_laws false) provision_acme blank_world acme

deleted_is_final_example :
    status_of acme
      (run_workflow (outside false) provision_acme (acme_world deleted acme_server [])).1
    ≡ some deleted
unfolding find_tenant text_eq
deleted_is_final_example =
    deleted_is_final (outside false) (outside_laws false) provision_acme
      (acme_world deleted acme_server []) acme refl

audit_append_only_example :
    (events : List AuditEvent) × ((run_workflow
        (outside true)
        delete_acme
        (acme_world active acme_server [])).1.audit
      ≡ events ++ [])
audit_append_only_example =
    audit_append_only (outside true) (outside_laws true) delete_acme
      (acme_world active acme_server [])

row_is_kept_example :
    (v : Tenant) × (find_tenant acme
        (run_workflow (outside false) delete_acme (acme_world active acme_server [])).1.tenants
      ≡ some v)
    × Fixed (some (acme_row active)) v
unfolding find_tenant text_eq
row_is_kept_example =
    row_is_kept (outside false) (outside_laws false) delete_acme (acme_world active acme_server [])
      acme (acme_row active) refl

blank_world-IsConsistent : IsConsistent blank_world
blank_world-IsConsistent = record {
  ids_unique = tt;
  events_known = tt;
  backups_known = tt;
  quotas_known = tt;
  names_fresh = tt;
  plans_fit = tt;
}

tables-IsConsistent_example :
    IsConsistent (run_workflow (outside false) provision_acme blank_world).1
tables-IsConsistent_example =
    tables-IsConsistent (outside false) (outside_laws false) provision_acme blank_world
      blank_world-IsConsistent
