-- ===== src/Repository/Memory.antt =====
-- InMemoryQuotaStore of internal/billing/quota.go, and how it differs from the store in the database.
use tenantflow.Prelude.{Text, List, ◌≡◌, refl, if◌then◌else◌, text_eq, arith, true, ◌&&◌, is_some}
use tenantflow.Model.{Quota}
use tenantflow.World.{World, find_tenant, find_quota, put_quota, find_quota-put_quota}
use tenantflow.Repository.Quotas.{or_default, upsert_quota, fits_columns}

abbrev pub QuotaMap : Type 0
QuotaMap = List (Text × Quota)

unfoldable pub memory_set : Text → Quota → QuotaMap → QuotaMap
memory_set id q plans = put_quota id q plans

unfoldable pub memory_get : Text → QuotaMap → Quota
memory_get id plans = or_default (find_quota id plans)

memory_get-memory_set :
    (id j : Text) (q : Quota) (plans : QuotaMap)
    → memory_get j (memory_set id q plans) ≡ (if text_eq id j then q else memory_get j plans)
unfolding memory_get memory_set
memory_get-memory_set id j q plans = ground (arith, find_quota-put_quota id j q plans)

-- For a tenant that is there and a plan that fits the columns, the two stores agree.
upsert_quota-memory_set :
    {S : Type 0} (id : Text) (q : Quota) (w : World S)
    → (is_some (find_tenant id w.tenants) && fits_columns q) ≡ true
    → (upsert_quota id q w).1.quotas ≡ memory_set id q w.quotas
unfolding upsert_quota memory_set
upsert_quota-memory_set id q w h = rw h refl
