-- ===== src/Contracts/Missing.antt =====
-- What a reconciliation does when the database of an active tenant is missing and there is no
-- completed backup to restore it from.
use tenantflow.Prelude.{ℕ, Text, Bool, true, false, ◌≡◌, ◌∙◌, subst, none, some}
use tenantflow.Model.{
  Tenant, TenantSpec, DatabaseState, ReconcileActualState, active, is_dedicated, same_status,
}
use tenantflow.World.{World, ok, find_tenant, tenant_id_of_found, ◌>>=◌, pure, external}
use tenantflow.Cloud.Names.{tenant_database_name}
use tenantflow.Cloud.Provider.{CloudProvider}
use tenantflow.Repository.{get_tenant, select_tenant, list_backups, backups_of, newest_first}
use tenantflow.Activities.Reconcile.{
  resolve_tenant_spec, spec_of, lookup_error, probe_tenant_actual_state, probe_database,
  probe_backups, count_completed, first_completed, restore_tenant_from_backup, restore_if_any,
}
use tenantflow.Activities.Reconcile.Latest.{count_completed-newest_first, first_completed-none}
use tenantflow.Contracts.{
  Holds, Keeps, Holds-pure, Holds-raise, Holds-if, Holds-external, Holds-statement, Holds-or_else,
  Holds-weaken,
}
use tenantflow.Contracts.Stages.{Holds-then, Holds-knowing}
use tenantflow.Contracts.Statements.{IgnoresTrail}

-- The tenant's database is missing, as far as the provider can tell: `P` is a state of the provider
-- in which it says so, and in which looking changes nothing.
pub record SeesMissing {S : Type 0} (p : CloudProvider S) (id : Text) (P : S → Type 0)
    : Type 0 where
  pub inspected : (s : S) → P s → P (p.inspect_database (tenant_database_name id) s).1
  pub absent :
      (s : S) (d : DatabaseState)
      → P s
      → (p.inspect_database (tenant_database_name id) s).0 ≡ ok d
      → d.exists ≡ false
  pub role_looked_up : (s : S) → P s → P (p.role_exists (tenant_database_name id) s).1

-- An active tenant with a database of its own, which is missing, and no completed backup.
pub record IsUnrecoverable {S : Type 0} (P : S → Type 0) (id : Text) (w : World S) : Type 0 where
  pub row : Tenant
  pub row_found : find_tenant id w.tenants ≡ some row
  pub row_active : same_status row.status active ≡ true
  pub row_dedicated : is_dedicated row.isolation_mode ≡ true
  pub provider_state : P w.ext
  pub no_backup : count_completed (backups_of id w.backups) ≡ 0

-- What the spec of such a tenant says.
abbrev pub Promised : Text → TenantSpec → Type 0
Promised id spec =
    (spec.tenant_id ≡ id) × (spec.require_database ≡ true) × (same_status spec.status active ≡ true)

module _ {S : Type 0} (p : CloudProvider S) (id : Text) (P : S → Type 0)
    (sees : SeesMissing p id P) where
  pub IgnoresTrail-IsUnrecoverable : IgnoresTrail (IsUnrecoverable P id)
  IgnoresTrail-IsUnrecoverable = record {
    of_clock = λ w rest c i. record {
      row = i.row;
      row_found = i.row_found;
      row_active = i.row_active;
      row_dedicated = i.row_dedicated;
      provider_state = i.provider_state;
      no_backup = i.no_backup;
    };
    of_event = λ w e i. record {
      row = i.row;
      row_found = i.row_found;
      row_active = i.row_active;
      row_dedicated = i.row_dedicated;
      provider_state = i.provider_state;
      no_backup = i.no_backup;
    };
  }

  at_provider :
      (w : World S) (s : S)
      → P s
      → IsUnrecoverable P id w
      → IsUnrecoverable P id (record w { ext = s })
  at_provider w s q i = record {
    row = i.row;
    row_found = i.row_found;
    row_active = i.row_active;
    row_dedicated = i.row_dedicated;
    provider_state = q;
    no_backup = i.no_backup;
  }

  Holds-get_tenant :
      Holds
        (IsUnrecoverable P id)
        (IsUnrecoverable P id)
        (λ t w. Promised id (spec_of t))
        (get_tenant id)
  unfolding get_tenant select_tenant
  Holds-get_tenant =
      Holds-statement (select_tenant id) IgnoresTrail-IsUnrecoverable.of_clock (λ w i. i)
        (record {
          ends = λ w i. rw i.row_found i;
          gives = λ w t i e.
              let same : i.row ≡ t = cc (rw i.row_found at e) in
              subst (λ u. Promised id (spec_of u)) same
                (tenant_id_of_found id i.row w.tenants i.row_found, i.row_dedicated, i.row_active);
        })

  pub Holds-resolve_tenant_spec :
      Holds
        (IsUnrecoverable P id)
        (IsUnrecoverable P id)
        (λ spec w. Promised id spec)
        (resolve_tenant_spec id)
  unfolding resolve_tenant_spec
  Holds-resolve_tenant_spec =
      Holds-knowing _ (λ t. pure (spec_of t))
        (Holds-or_else (get_tenant id) _ Holds-get_tenant (λ w i. i)
          (λ e. Holds-raise (lookup_error e) (λ w i. i)))
        (λ w i. i) (λ t promised. Holds-pure (spec_of t) (λ w i. i) (λ w i. promised))

  Holds-probe_database :
      (spec : TenantSpec)
      → Promised id spec
      → Holds
          (IsUnrecoverable P id)
          (IsUnrecoverable P id)
          (λ a w. a.0.exists ≡ false)
          (probe_database p spec)
  unfolding probe_database
  Holds-probe_database spec (own, required, on) =
      rw (required, own)
        (Holds-knowing {F = λ d. d.exists ≡ false}
          (external (p.inspect_database (tenant_database_name id))) _
          (Holds-external _ (λ w i. at_provider w _ (sees.inspected w.ext i.provider_state) i)
            (λ w d i e. sees.absent w.ext d i.provider_state e))
          (λ w i. i)
          (λ d absent.
            Holds-then (external (p.role_exists (tenant_database_name id))) _
              (Holds-external _
                (λ w i. at_provider w _ (sees.role_looked_up w.ext i.provider_state) i)
                (λ w b i e. tt))
              (λ w i. i) (λ b. Holds-pure (d, b) (λ w i. i) (λ w i. absent))))

  Holds-list_backups :
      Holds
        (IsUnrecoverable P id)
        (IsUnrecoverable P id)
        (λ bs w. first_completed bs ≡ none)
        (list_backups id)
  unfolding list_backups
  Holds-list_backups =
      Holds-statement _ IgnoresTrail-IsUnrecoverable.of_clock (λ w i. i)
        (record {
          ends = λ w i. i;
          gives = λ w bs i e.
              let sorted = newest_first (λ b. b.created_at) (backups_of id w.backups) in
              let same : sorted ≡ bs = cc e in
              subst (λ x. first_completed x ≡ none) same
                (first_completed-none sorted (
                  count_completed-newest_first (λ b. b.created_at) (backups_of id w.backups)
                  ∙ i.no_backup));
        })

  Keeps-probe_backups :
      (spec : TenantSpec) → Promised id spec → Keeps (IsUnrecoverable P id) (probe_backups p spec)
  unfolding probe_backups
  Keeps-probe_backups spec (own, required, on) = rw own (
      Holds-if spec.require_backup _ _
        (λ h.
          Holds-then (list_backups id) _
            (Holds-weaken (λ w i. i) (λ w i. i) (λ a w e. tt) Holds-list_backups) (λ w i. i)
            (λ bs. Holds-pure (count_completed bs) (λ w i. i) (λ w i. tt)))
        (λ h. Holds-pure 0 (λ w i. i) (λ w i. tt)))

  abbrev observation : TenantSpec → DatabaseState × Bool → ℕ → ReconcileActualState
  observation spec observed completed = record {
    tenant_id = spec.tenant_id;
    database = observed.0;
    role_exists = observed.1;
    completed_backups = completed;
  }

  pub Holds-probe :
      (spec : TenantSpec)
      → Promised id spec
      → Holds
          (IsUnrecoverable P id)
          (IsUnrecoverable P id)
          (λ a w. a.database.exists ≡ false)
          (probe_tenant_actual_state p spec)
  unfolding probe_tenant_actual_state
  Holds-probe spec promised =
      Holds-knowing {F = λ a. a.0.exists ≡ false} (probe_database p spec)
        (λ observed. probe_backups p spec >>= λ n. pure (observation spec observed n))
        (Holds-probe_database spec promised) (λ w i. i)
        (λ observed absent.
          Holds-then (probe_backups p spec) (λ n. pure (observation spec observed n))
            (Keeps-probe_backups spec promised) (λ w i. i)
            (λ n. Holds-pure (observation spec observed n) (λ w i. i) (λ w i. absent)))

  pub Holds-restore :
      (workflow_id : Text)
      → Holds
          (IsUnrecoverable P id)
          (IsUnrecoverable P id)
          (λ a w. ⊥)
          (restore_tenant_from_backup p workflow_id id)
  unfolding restore_tenant_from_backup restore_if_any
  Holds-restore workflow_id =
      Holds-knowing {F = λ bs. first_completed bs ≡ none} (list_backups id)
        (λ bs. restore_if_any p workflow_id id (first_completed bs)) Holds-list_backups (λ w i. i)
        (λ bs nothing. rw nothing (Holds-raise _ (λ w i. i)))
