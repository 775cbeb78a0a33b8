-- ===== src/Repository/Quotas.antt =====
-- internal/repository/quota.go: the plan limits; a tenant with no row is on the default plan.
use tenantflow.Prelude.{
  ℕ, Text, ⊤, Bool, ◌&&◌, ◌||◌, ltb, leb, ◌^◌, ◌-◌, Option, none, some, if◌then◌else◌, is_some,
}
use tenantflow.Model.{Quota, default_quota}
use tenantflow.World.{Act, ok, err, other, find_tenant, find_quota, put_quota, statement}

abbrev pub or_default : Option Quota → Quota
or_default none = default_quota
or_default (some q) = q

-- A Go `int` (a pattern of 64 bits) that a column of type INTEGER can hold: between -2^31 and 2^31 - 1.
abbrev pub fits_integer : ℕ → Bool
fits_integer n = ltb n (2 ^ 31) || leb (2 ^ 64 - 2 ^ 31) n

abbrev pub fits_columns : Quota → Bool
fits_columns q =
    fits_integer q.max_users && fits_integer q.max_storage_gb && fits_integer q.max_seats

module _ {S : Type 0} where
  -- tenant_quotas.tenant_id references tenants, and the columns are INTEGER.
  unfoldable pub upsert_quota : Text → Quota → Act S ⊤
  upsert_quota id q w =
      if is_some (find_tenant id w.tenants) && fits_columns q
      then (ok tt, record w { quotas = put_quota id q w.quotas })
      else (err other, w)

  unfoldable pub set_quota : Text → Quota → Act S ⊤
  unfolding upsert_quota statement
  set_quota id q = statement (upsert_quota id q)

  unfoldable pub get_quota : Text → Act S Quota
  unfolding statement
  get_quota id = statement (λ w. (ok (or_default (find_quota id w.quotas)), w))
