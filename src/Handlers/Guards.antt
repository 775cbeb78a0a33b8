-- ===== src/Handlers/Guards.antt =====
-- What an endpoint asks of Temporal, and for which tenants.
use tenantflow.Prelude.{
  Int64, pos, negsuc, ℕ, zero, suc, Text, Bool, true, false, ◌≡◌, ◌↔◌, some, none, arith, refl, sym,
  ap, ◌∙◌, subst, Option, Bool-cases, inl, inr, ◌⊎◌, ◌≤◌, if◌then◌else◌, ◌||◌, ⊤,
}
use tenantflow.Model.{
  Tenant, TenantStatus, active, failed, deleting, deleted, same_status, rank, IsolationMode,
  pending, provisioning,
}
use tenantflow.World.{World, Result, ok, err, find_tenant, or_not_found}
use tenantflow.Cloud.Names.{tenant_id_pattern, safe_id, tenant_database_name}
use tenantflow.Cloud.Names.Valid.{safe_id-tenant_database_name}
use tenantflow.Repository.{get_tenant, select_tenant}
use tenantflow.Lifecycle.Status.{status_of, status_in}
use tenantflow.Contracts.{Holds, Holds-statement}
use tenantflow.Handlers.{
  Start, StartAnswer, SignalAnswer, Reply, refuse, with_tenant, create_tenant_request,
  delete_tenant, when_active, upgrade_tenant, migrate_tenant, backup_tenant, restore_tenant,
  failed_runs_limit, answer_lookup,
}
use tenantflow.Handlers.Retry.{retry_tenant, resume_delete}

-- For a requested limit that is not negative, the limit of the query for failed runs is between 1
-- and 100, and it is the requested one exactly if that is between 1 and 100.
failed_runs_limit_bounds :
    (n : ℕ)
    → (1 ≤ failed_runs_limit (some (pos n)))
      × (failed_runs_limit (some (pos n)) ≤ 100)
      × ((failed_runs_limit (some (pos n)) ≡ n) ↔ ((1 ≤ n) × (n ≤ 100)))
unfolding failed_runs_limit
failed_runs_limit_bounds n = ground arith

abbrev status_at : ℕ → TenantStatus
status_at zero = pending
status_at (suc zero) = provisioning
status_at (suc (suc zero)) = active
status_at (suc (suc (suc zero))) = failed
status_at (suc (suc (suc (suc zero)))) = deleting
status_at (suc (suc (suc (suc (suc n))))) = deleted

status_at-rank : (s : TenantStatus) → status_at (rank s) ≡ s
status_at-rank pending = refl
status_at-rank provisioning = refl
status_at-rank active = refl
status_at-rank failed = refl
status_at-rank deleting = refl
status_at-rank deleted = refl

same_status_eq : (s u : TenantStatus) → same_status s u ≡ true → s ≡ u
same_status_eq s u h =
    let ranks : rank s ≡ rank u = ground (arith, h) in
    sym (status_at-rank s) ∙ ap status_at ranks ∙ status_at-rank u

read_found :
    {S : Type 0} (o : Option Tenant) (w : World S) (t : Tenant)
    → (or_not_found o w).0 ≡ ok t
    → o ≡ some t
read_found none w t e = absurd (cc e)
read_found (some x) w t e = cc e

module _ {S : Type 0} (id : Text) where
  -- A tenant that the repository gives is the row of the table.
  found_in_table :
      (w : World S) (t : Tenant) → (get_tenant id w).0 ≡ ok t → find_tenant id w.tenants ≡ some t
  unfolding get_tenant select_tenant
  found_in_table w t e =
      let h : Holds (λ u. u.tenants ≡ w.tenants) (λ u. ⊤) (λ x u. find_tenant id w.tenants ≡ some x)
          (get_tenant id) =
        Holds-statement (select_tenant id) (λ u rest c i. i) (λ u i. tt)
          (record {
            ends = λ u i. tt;
            gives = λ u x i q. subst (λ ts. find_tenant id ts ≡ some x) i (read_found _ u x q);
          }) in
      h.gives w t refl e

  dispatched :
      (handle : Tenant → World S → Reply × World S) (s : Start) (r : Result Tenant) (w : World S)
      → (answer_lookup handle r w).0.asked ≡ some s
      → (t : Tenant) × (r ≡ ok t) × ((handle t w).0.asked ≡ some s)
  dispatched handle s (ok t) w e = (t, refl, e)
  dispatched handle s (err x) w e = absurd (cc e)

  -- A start behind GetTenant is for the row that the table has.
  behind_lookup :
      (handle : Tenant → World S → Reply × World S) (s : Start) (w : World S)
      → (with_tenant id handle w).0.asked ≡ some s
      → (t : Tenant) × (u : World S) × (find_tenant id w.tenants ≡ some t)
        × ((handle t u).0.asked ≡ some s)
  unfolding with_tenant
  behind_lookup handle s w e =
      let (t, got, asked) = dispatched handle s (get_tenant id w).0 (get_tenant id w).1 e in
      (t, (get_tenant id w).1, found_in_table w t got, asked)

  status_of_row :
      (w : World S) (t : Tenant) (s : TenantStatus)
      → find_tenant id w.tenants ≡ some t
      → same_status t.status s ≡ true
      → status_of id w ≡ some s
  status_of_row w t s found same = ap status_in found ∙ ap some (same_status_eq t.status s same)

pub data SagaRequest : Type 0 where
  upgrade migrate backup : SagaRequest
  restore : Option Int64 → SagaRequest

behind_guards :
    {S : Type 0} (first second last : Bool) (y : Reply × World S) (s : Start) (u : World S)
    → (if first
        then (refuse 409, u)
        else if second
        then (refuse 409, u)
        else if last
        then y
        else (refuse 409, u)).0.asked
      ≡ some s
    → last ≡ true
behind_guards true second last y s u e = absurd (cc e)
behind_guards false true last y s u e = absurd (cc e)
behind_guards false false true y s u e = refl
behind_guards false false false y s u e = absurd (cc e)

module _ {S : Type 0} (start : Start → StartAnswer) (signal : Text → SignalAnswer) (grace : ℕ)
    (id : Text) where
  -- The four endpoints that are for active tenants.
  abbrev pub saga_request : SagaRequest → World S → Reply × World S
  saga_request upgrade = upgrade_tenant start signal grace id
  saga_request migrate = migrate_tenant start signal grace id
  saga_request backup = backup_tenant start signal grace id
  saga_request (restore field) = restore_tenant start signal grace id field

  when_active_lem :
      (x s : Start) (w : World S)
      → (when_active start signal grace id x w).0.asked ≡ some s
      → status_of id w ≡ some active
  unfolding when_active
  when_active_lem x s w e =
      let (t, u, found, asked) = behind_lookup id _ s w e in
      elim (Bool-cases (same_status t.status active)) [
        | inl on ↦ status_of_row id w t active found on
        | inr off ↦ absurd (cc (rw off at asked))
      ]

  -- An upgrade, a migration, a backup or a restore is asked of Temporal only for a tenant whose row
  -- is active.
  pub sagas_need_active :
      (r : SagaRequest) (s : Start) (w : World S)
      → (saga_request r w).0.asked ≡ some s
      → status_of id w ≡ some active
  unfolding upgrade_tenant migrate_tenant backup_tenant restore_tenant
  sagas_need_active upgrade s w e = when_active_lem _ s w e
  sagas_need_active migrate s w e = when_active_lem _ s w e
  sagas_need_active backup s w e = when_active_lem _ s w e
  sagas_need_active (restore none) s w e = absurd (cc e)
  sagas_need_active (restore (some (pos zero))) s w e = absurd (cc e)
  sagas_need_active (restore (some (pos (suc n)))) s w e = when_active_lem _ s w e
  sagas_need_active (restore (some (negsuc n))) s w e = absurd (cc e)

  -- A deletion is asked of Temporal only for a tenant whose row is active or failed.
  pub delete_needs_stable :
      (s : Start) (w : World S)
      → (delete_tenant start signal grace id w).0.asked ≡ some s
      → (status_of id w ≡ some active) ⊎ (status_of id w ≡ some failed)
  unfolding delete_tenant
  delete_needs_stable s w e =
      let (t, u, found, asked) = behind_lookup id _ s w e in
      let allowed =
        behind_guards (same_status t.status deleting) (same_status t.status deleted)
          (same_status t.status active || same_status t.status failed) _ s u asked in
      elim (Bool-cases (same_status t.status active)) [
        | inl on ↦ inl (status_of_row id w t active found on)
        | inr off ↦ inr (status_of_row id w t failed found (ground (arith, allowed, off)))
      ]

  resumed :
      (r : Result ⊤) (t : Tenant) (s : Start) (u : World S)
      → (resume_delete start signal grace r t u).0.asked ≡ some s
      → r ≡ ok tt
  unfolding resume_delete
  resumed (ok a) t s u e = refl
  resumed (err x) t s u e = absurd (cc e)

  -- A retry asks Temporal for a new provisioning only if the tenant's row is failed, and for a
  -- deletion only if it is deleting and the dead letters hold a failed deletion of it.
  pub retry_needs_failure :
      (dead_letter : Text → Result ⊤) (s : Start) (w : World S)
      → (retry_tenant start signal grace dead_letter id w).0.asked ≡ some s
      → (status_of id w ≡ some failed)
        ⊎ ((status_of id w ≡ some deleting) × (dead_letter id ≡ ok tt))
  unfolding retry_tenant
  retry_needs_failure dead_letter s w e =
      let (t, u, found, asked) = behind_lookup id _ s w e in
      elim (Bool-cases (same_status t.status failed)) [
        | inl broken ↦ inl (status_of_row id w t failed found broken)
        | inr whole ↦ elim (Bool-cases (same_status t.status deleting)) [
          | inl going ↦ inr (
            status_of_row id w t deleting found going,
            resumed (dead_letter id) t s u (rw (whole, going) at asked),
          )
          | inr staying ↦ absurd (cc (rw (whole, staying) at asked))
        ]
      ]

  -- A provisioning that the API asks for has a tenant ID whose database has a valid name.
  pub create_has_valid_name :
      (mode : IsolationMode) (s : Start) (w : World S)
      → (create_tenant_request start signal grace (some (id, mode)) w).0.asked ≡ some s
      → safe_id (tenant_database_name id) ≡ true
  unfolding create_tenant_request
  create_has_valid_name mode s w e = elim (Bool-cases (tenant_id_pattern id)) [
    | inl fits ↦ ((safe_id-tenant_database_name id).0 fits).0
    | inr unfit ↦ absurd (cc (rw unfit at e))
  ]
