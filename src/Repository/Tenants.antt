-- ===== src/Repository/Tenants.antt =====
-- internal/repository/tenant.go: the rows of the tenants table.
use tenantflow.Prelude.{Text, ⊤, List, none, some, if◌then◌else◌}
use tenantflow.Model.{Tenant, TenantStatus, any_status}
use tenantflow.World.{Act, ok, err, conflict, find_tenant, put_tenant, statement, or_not_found}
use tenantflow.Repository.Sort.{newest_first}

module _ {S : Type 0} where
  -- INSERT INTO tenants ... ON CONFLICT (tenant_id) DO NOTHING; the clock gives both dates.
  unfoldable pub insert_tenant : Tenant → Act S ⊤
  insert_tenant t w =
      let row = record t { created_at = w.now; updated_at = w.now } in
      elim (find_tenant t.tenant_id w.tenants) [
        | some _ ↦ (ok tt, w)
        | none ↦ (ok tt, record w { tenants = put_tenant row w.tenants })
      ]

  unfoldable pub create_tenant : Tenant → Act S ⊤
  unfolding insert_tenant statement
  create_tenant t = statement (insert_tenant t)

  unfoldable pub select_tenant : Text → Act S Tenant
  select_tenant id w = or_not_found (find_tenant id w.tenants) w

  unfoldable pub get_tenant : Text → Act S Tenant
  unfolding select_tenant statement
  get_tenant id = statement (select_tenant id)

  unfoldable pub list_tenants : Act S (List Tenant)
  unfolding statement
  list_tenants = statement (λ w. (ok (newest_first (λ t. t.created_at) w.tenants), w))

  -- UPDATE tenants SET status = $2, updated_at = now() WHERE tenant_id = $1 AND status = ANY($3);
  -- no row affected is ErrStatusConflict.
  unfoldable pub update_status : Text → TenantStatus → List TenantStatus → Act S ⊤
  update_status id to from w = elim (find_tenant id w.tenants) [
    | none ↦ (err conflict, w)
    | some t ↦
        if any_status from t.status
        then (
          ok tt,
          record w {
            tenants = put_tenant (record t { status = to; updated_at = w.now }) w.tenants;
          },
        )
        else (err conflict, w)
  ]

  unfoldable pub update_tenant_status_from : Text → TenantStatus → List TenantStatus → Act S ⊤
  unfolding update_status statement
  update_tenant_status_from id to from = statement (update_status id to from)
