-- ===== src/Repository/Audit.antt =====
-- internal/repository/audit.go: the audit trail.
use tenantflow.Prelude.{Text, ⊤, List, ◌∷◌, if◌then◌else◌, is_some, text_eq}
use tenantflow.Model.{AuditEvent}
use tenantflow.World.{Act, ok, err, other, find_tenant, statement}
use tenantflow.Repository.Sort.{newest_first, matching}

module _ {S : Type 0} where
  -- audit_events.tenant_id references tenants: an event of an unknown tenant is refused. The clock
  -- gives the date.
  unfoldable pub insert_event : AuditEvent → Act S ⊤
  insert_event e w =
      if is_some (find_tenant e.tenant_id w.tenants)
      then (ok tt, record w { audit = record e { created_at = w.now } ∷ w.audit })
      else (err other, w)

  unfoldable pub write_event : AuditEvent → Act S ⊤
  unfolding insert_event statement
  write_event e = statement (insert_event e)

  unfoldable pub list_events : Text → Act S (List AuditEvent)
  unfolding statement
  list_events id = statement (λ w.
      (ok (newest_first (λ e. e.created_at) (matching (λ e. text_eq e.tenant_id id) w.audit)), w))
