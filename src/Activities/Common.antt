-- ===== src/Activities/Common.antt =====
-- The error mapping that the status transitions share, and the plain audit event.
use tenantflow.Prelude.{Text, ⊤, Bool, true, false, List, ◌||◌, if◌then◌else◌}
use tenantflow.Model.{TenantStatus, AuditEventType, Payload, workflow_event}
use tenantflow.World.{
  Act, Error, conflict, not_found, joined, non_retryable, status_conflict, raise, or_else,
}
use tenantflow.Repository.{update_tenant_status_from, write_event}

-- errors.Is(err, repository.ErrStatusConflict)
unfoldable pub is_conflict : Error → Bool
is_conflict conflict = true
is_conflict (joined a b) = is_conflict a || is_conflict b
is_conflict _ = false

-- errors.Is(err, repository.ErrNotFound)
unfoldable pub is_not_found : Error → Bool
is_not_found not_found = true
is_not_found (joined a b) = is_not_found a || is_not_found b
is_not_found _ = false

-- A lost race is not retried.
unfoldable pub conflict_error : Error → Error
unfolding is_conflict
conflict_error e = if is_conflict e then non_retryable status_conflict else e

module _ {S : Type 0} where
  -- UpdateTenantStatusFrom and the mapping of its error, as every Mark... activity calls it.
  unfoldable pub transition : Text → TenantStatus → List TenantStatus → Act S ⊤
  transition id to from =
      or_else (update_tenant_status_from id to from) (λ e. raise (conflict_error e))

  -- WriteEvent of a plain event of the actor "workflow".
  unfoldable pub record_event : Text → AuditEventType → Payload → Act S ⊤
  record_event id kind payload = write_event (workflow_event id kind payload)
