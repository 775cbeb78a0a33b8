-- ===== src/World/Tables.antt =====
-- Rows by their primary key. The keys of tenants and tenant_quotas are unique (PRIMARY KEY), so the
-- first row with a key is the only one.
use tenantflow.Prelude.{
  Text, ⊤, false, ◌≡◌, refl, sym, subst, List, [], ◌∷◌, Option, none, some, is_some, arith, text_eq,
  text_eq_iff, Bool-cases, inl, inr, if◌then◌else◌,
}
use tenantflow.Model.{Tenant, Quota}

-- WHERE tenant_id = $1
unfoldable pub find_tenant : Text → List Tenant → Option Tenant
find_tenant k [] = none
find_tenant k (t ∷ ts) = if text_eq t.tenant_id k then some t else find_tenant k ts

-- The row with the key of `u` becomes `u`; with no such row, `u` is a new one.
unfoldable pub put_tenant : Tenant → List Tenant → List Tenant
put_tenant u [] = u ∷ []
put_tenant u (t ∷ ts) = if text_eq t.tenant_id u.tenant_id then u ∷ ts else t ∷ put_tenant u ts

pub find_tenant-put_tenant :
    (u : Tenant) (k : Text) (ts : List Tenant)
    → find_tenant k (put_tenant u ts) ≡ (if text_eq u.tenant_id k then some u else find_tenant k ts)
unfolding find_tenant put_tenant
find_tenant-put_tenant u k [] = refl
find_tenant-put_tenant u k (t ∷ ts) = ground (
  arith,
  text_eq_iff t.tenant_id k,
  text_eq_iff t.tenant_id u.tenant_id,
  text_eq_iff u.tenant_id k,
  find_tenant-put_tenant u k ts,
)

-- The primary key: no two rows have one tenant_id.
abbrev pub HasUniqueIds : List Tenant → Type 0
HasUniqueIds [] = ⊤
HasUniqueIds (t ∷ ts) = (is_some (find_tenant t.tenant_id ts) ≡ false) × HasUniqueIds ts

pub put_tenant-HasUniqueIds :
    (u : Tenant) (ts : List Tenant) → HasUniqueIds ts → HasUniqueIds (put_tenant u ts)
unfolding find_tenant put_tenant
put_tenant-HasUniqueIds u [] h = (refl, tt)
put_tenant-HasUniqueIds u (t ∷ ts) h = elim (Bool-cases (text_eq t.tenant_id u.tenant_id)) [
  | inl own ↦ rw own (ground (arith, h.0, own, text_eq_iff t.tenant_id u.tenant_id), h.1)
  | inr other ↦ rw other (
    ground (
      arith,
      h.0,
      other,
      text_eq_iff t.tenant_id u.tenant_id,
      text_eq_iff u.tenant_id t.tenant_id,
      find_tenant-put_tenant u t.tenant_id ts,
    ),
    put_tenant-HasUniqueIds u ts h.1,
  )
]

-- A row stands under its own key.
pub tenant_id_of_found :
    (k : Text) (t : Tenant) (ts : List Tenant) → find_tenant k ts ≡ some t → t.tenant_id ≡ k
unfolding find_tenant
tenant_id_of_found k t [] h = cc
tenant_id_of_found k t (u ∷ ts) h =
    ground (arith, text_eq_iff u.tenant_id k, tenant_id_of_found k t ts)

pub found_at_own_id :
    (k : Text) (t : Tenant) (ts : List Tenant)
    → find_tenant k ts ≡ some t
    → find_tenant t.tenant_id ts ≡ some t
found_at_own_id k t ts h =
    subst (λ j. find_tenant j ts ≡ some t) (sym (tenant_id_of_found k t ts h)) h

unfoldable pub find_quota : Text → List (Text × Quota) → Option Quota
find_quota k [] = none
find_quota k ((j, q) ∷ qs) = if text_eq j k then some q else find_quota k qs

-- ON CONFLICT (tenant_id) DO UPDATE
unfoldable pub put_quota : Text → Quota → List (Text × Quota) → List (Text × Quota)
put_quota k q [] = (k, q) ∷ []
put_quota k q ((j, p) ∷ qs) = if text_eq j k then (k, q) ∷ qs else (j, p) ∷ put_quota k q qs

pub find_quota-put_quota :
    (k j : Text) (q : Quota) (qs : List (Text × Quota))
    → find_quota j (put_quota k q qs) ≡ (if text_eq k j then some q else find_quota j qs)
unfolding find_quota put_quota
find_quota-put_quota k j q [] = refl
find_quota-put_quota k j q ((i, p) ∷ qs) =
    ground (arith, text_eq_iff i k, text_eq_iff i j, text_eq_iff k j, find_quota-put_quota k j q qs)
