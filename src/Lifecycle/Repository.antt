-- ===== src/Lifecycle/Repository.antt =====
-- Every statement of the repositories follows the relation.
use tenantflow.Prelude.{
  text_eq, ◌==◌, ℕ, Text, ◌≡◌, refl, true, List, some, Option-cases, Bool-cases, inl, inr, is_some,
}
use tenantflow.Model.{Tenant, TenantStatus, any_status, provisioning, AuditEvent, Quota}
use tenantflow.World.{found_at_own_id, find_tenant}
use tenantflow.Repository.{
  create_tenant, get_tenant, list_tenants, update_tenant_status_from, insert_tenant, select_tenant,
  update_status, write_event, insert_event, create_backup, get_backup, list_backups, insert_backup,
  select_backup, find_backup, fits_columns, mark_backup_completed, mark_backup_failed, set_quota,
  get_quota, upsert_quota,
}
use tenantflow.Lifecycle.Steps.{
  Edge, here, Reach-Step, insert, move, log, begin_backup, complete_backup, fail_backup, set_plan,
}
use tenantflow.Lifecycle.Follows.{Follows, Follows-statement}

module _ {S : Type 0} where
  pub Follows-create_tenant :
      (t : Tenant) → t.status ≡ provisioning → Follows {S = S} (create_tenant t)
  unfolding create_tenant insert_tenant
  Follows-create_tenant t new = Follows-statement (insert_tenant t) (record {
    at = λ w. elim (Option-cases (find_tenant t.tenant_id w.tenants)) [
      | inl e ↦
          rw (e, insert_tenant)
            (Reach-Step (insert (record t { created_at = w.now; updated_at = w.now }) e new refl))
      | inr (_, e) ↦ rw (e, insert_tenant) here
    ];
  })

  pub Follows-get_tenant : (id : Text) → Follows {S = S} (get_tenant id)
  unfolding get_tenant select_tenant
  Follows-get_tenant id = Follows-statement (select_tenant id) (record {
    at = λ w. elim (Option-cases (find_tenant id w.tenants)) [
      | inl e ↦ rw e here
      | inr (_, e) ↦ rw e here
    ];
  })

  pub Follows-list_tenants : Follows {S = S} list_tenants
  unfolding list_tenants
  Follows-list_tenants = Follows-statement _ (record { at = λ w. here })

  pub Follows-update_tenant_status_from :
      (id : Text) (to : TenantStatus) (from : List TenantStatus)
      → ((s : TenantStatus) → any_status from s ≡ true → Edge (some s) (some to))
      → Follows {S = S} (update_tenant_status_from id to from)
  unfolding update_tenant_status_from update_status
  Follows-update_tenant_status_from id to from edge =
      Follows-statement (update_status id to from) (record {
        at = λ w. elim (Option-cases (find_tenant id w.tenants)) [
          | inl e ↦ rw (e, update_status) here
          | inr (t, e) ↦ elim (Bool-cases (any_status from t.status)) [
            | inl legal ↦
                rw (e, update_status, legal)
                  (Reach-Step
                    (move t to (found_at_own_id id t w.tenants e) (edge t.status legal) refl))
            | inr no_edge ↦ rw (e, update_status, no_edge) here
          ]
        ];
      })

  pub Follows-write_event : (e : AuditEvent) → Follows {S = S} (write_event e)
  unfolding write_event insert_event
  Follows-write_event e = Follows-statement (insert_event e) (record {
    at = λ w. elim (Bool-cases (is_some (find_tenant e.tenant_id w.tenants))) [
      | inl known ↦ rw known (Reach-Step (log (record e { created_at = w.now }) known refl))
      | inr unknown_tenant ↦ rw unknown_tenant here
    ];
  })

  pub Follows-create_backup : (id file : Text) → Follows {S = S} (create_backup id file)
  unfolding create_backup insert_backup
  Follows-create_backup id file = Follows-statement (insert_backup id file) (record {
    at = λ w. elim (Bool-cases (is_some (find_tenant id w.tenants))) [
      | inl known ↦
          elim (Bool-cases (is_some (find_backup (λ b. text_eq b.filename file) w.backups))) [
            | inl taken ↦ rw (known, taken) here
            | inr fresh ↦ rw (known, fresh) (Reach-Step (begin_backup _ known fresh refl refl refl))
          ]
      | inr unknown_tenant ↦ rw unknown_tenant here
    ];
  })

  pub Follows-get_backup : (n : ℕ) → Follows {S = S} (get_backup n)
  unfolding get_backup select_backup
  Follows-get_backup n = Follows-statement (select_backup n) (record {
    at = λ w. elim (Option-cases (find_backup (λ b. b.id == n) w.backups)) [
      | inl e ↦ rw e here
      | inr (_, e) ↦ rw e here
    ];
  })

  pub Follows-list_backups : (id : Text) → Follows {S = S} (list_backups id)
  unfolding list_backups
  Follows-list_backups id = Follows-statement _ (record { at = λ w. here })

  pub Follows-mark_backup_completed : (n : ℕ) → Follows {S = S} (mark_backup_completed n)
  unfolding mark_backup_completed
  Follows-mark_backup_completed n =
      Follows-statement _ (record { at = λ w. Reach-Step (complete_backup n refl) })

  pub Follows-mark_backup_failed : (n : ℕ) → Follows {S = S} (mark_backup_failed n)
  unfolding mark_backup_failed
  Follows-mark_backup_failed n =
      Follows-statement _ (record { at = λ w. Reach-Step (fail_backup n refl) })

  pub Follows-set_quota : (id : Text) (q : Quota) → Follows {S = S} (set_quota id q)
  unfolding set_quota upsert_quota
  Follows-set_quota id q = Follows-statement (upsert_quota id q) (record {
    at = λ w. elim (Bool-cases (is_some (find_tenant id w.tenants))) [
      | inl known ↦ elim (Bool-cases (fits_columns q)) [
        | inl fits ↦ rw (known, fits) (Reach-Step (set_plan id q known fits refl))
        | inr wide ↦ rw (known, wide) here
      ]
      | inr unknown_tenant ↦ rw unknown_tenant here
    ];
  })

  pub Follows-get_quota : (id : Text) → Follows {S = S} (get_quota id)
  unfolding get_quota
  Follows-get_quota id = Follows-statement _ (record { at = λ w. here })
