-- ===== src/Lifecycle/Status.antt =====
-- What the relation does to a tenant's row.
use tenantflow.Prelude.{
  ⊤, Text, ◌≡◌, refl, sym, ap, ◌∙◌, subst, Bool, List, Option, none, some, text_eq, text_eq_iff,
  inl, inr, Bool-cases, if◌then◌else◌,
}
use tenantflow.Model.{Tenant, TenantStatus, deleted}
use tenantflow.World.{World, find_tenant, put_tenant, find_tenant-put_tenant}
use tenantflow.Lifecycle.Steps.{
  Edge, create, activate, recover, fail, fail_again, delete_active, delete_failed, cancel, finish,
  Step, Reach, here, next, answer, provider, insert, move, log, begin_backup, complete_backup,
  fail_backup, set_plan,
}

abbrev pub status_in : Option Tenant → Option TenantStatus
status_in none = none
status_in (some t) = some t.status

-- The status that a tenant has in a world, if it has a row.
abbrev pub status_of : {S : Type 0} → Text → World S → Option TenantStatus
status_of id w = status_in (find_tenant id w.tenants)

infix 40 ◌⟶*◌
pub data ◌⟶*◌ : Option TenantStatus → Option TenantStatus → Type 0 where
  stay : {s : Option TenantStatus} → s ⟶* s
  along : {r s u : Option TenantStatus} → r ⟶* s → Edge s u → r ⟶* u

-- What no statement changes once a row is there.
abbrev pub Fixed : Option Tenant → Tenant → Type 0
Fixed none u = ⊤
Fixed (some t) u =
    (u.isolation_mode ≡ t.isolation_mode)
    × (u.workflow_id ≡ t.workflow_id)
    × (u.created_at ≡ t.created_at)

-- The row of `id` before and after: untouched, or replaced along an edge.
pub data RowMove (before after : Option Tenant) : Type 0 where
  same : after ≡ before → RowMove before after
  replaced :
      (u : Tenant)
      → after ≡ some u
      → Edge (status_in before) (some u.status)
      → Fixed before u
      → RowMove before after

put_row :
    {S : Type 0} (id : Text) (u : Tenant) (w : World S)
    → Edge (status_in (find_tenant u.tenant_id w.tenants)) (some u.status)
    → Fixed (find_tenant u.tenant_id w.tenants) u
    → RowMove (find_tenant id w.tenants) (find_tenant id (put_tenant u w.tenants))
put_row id u w edge fixed =
    let lookup = find_tenant-put_tenant u id w.tenants in
    let branch : Bool → Option Tenant = λ b. if b then some u else find_tenant id w.tenants in
    elim (Bool-cases (text_eq u.tenant_id id)) [
      | inl own ↦
          let key : u.tenant_id ≡ id = (text_eq_iff u.tenant_id id).0 own in
          replaced u (lookup ∙ ap branch own)
            (subst (λ j. Edge (status_in (find_tenant j w.tenants)) (some u.status)) key edge)
            (subst (λ j. Fixed (find_tenant j w.tenants) u) key fixed)
      | inr other ↦ same (lookup ∙ ap branch other)
    ]

-- Where the rows are known to be `ts`, it is enough to look at those.
at_tenants :
    (id : Text) (before : Option Tenant) (ts us : List Tenant)
    → us ≡ ts
    → RowMove before (find_tenant id ts)
    → RowMove before (find_tenant id us)
at_tenants id before ts us e r = subst (λ vs. RowMove before (find_tenant id vs)) (sym e) r

module _ {S : Type 0} (id : Text) {w w' : World S} where
  pub Step-row : Step w w' → RowMove (find_tenant id w.tenants) (find_tenant id w'.tenants)
  Step-row (insert t fresh new e) = at_tenants id _ _ _ (ap (λ u. u.tenants) e) (
      put_row id t w
        (subst (λ o. Edge (status_in o) (some t.status)) (sym fresh)
          (subst (λ s. Edge none (some s)) (sym new) create))
        (subst (λ o. Fixed o t) (sym fresh) tt))
  Step-row (move t to found edge e) =
      let u : Tenant = record t { status = to; updated_at = w.now } in
      at_tenants id _ _ _ (ap (λ v. v.tenants) e) (
        put_row id u w (subst (λ o. Edge (status_in o) (some to)) (sym found) edge)
          (subst (λ o. Fixed o u) (sym found) (refl, refl, refl)))
  Step-row (answer rest t e) = at_tenants id _ _ _ (ap (λ u. u.tenants) e) (same refl)
  Step-row (provider s e) = at_tenants id _ _ _ (ap (λ u. u.tenants) e) (same refl)
  Step-row (log v known e) = at_tenants id _ _ _ (ap (λ u. u.tenants) e) (same refl)
  Step-row (begin_backup b known fresh p n e) =
      at_tenants id _ _ _ (ap (λ u. u.tenants) e) (same refl)
  Step-row (complete_backup n e) = at_tenants id _ _ _ (ap (λ u. u.tenants) e) (same refl)
  Step-row (fail_backup n e) = at_tenants id _ _ _ (ap (λ u. u.tenants) e) (same refl)
  Step-row (set_plan j q known fits e) = at_tenants id _ _ _ (ap (λ u. u.tenants) e) (same refl)

path_of_row :
    (start before after : Option Tenant)
    → status_in start ⟶* status_in before
    → RowMove before after
    → status_in start ⟶* status_in after
path_of_row start before after p (same e) = subst (λ o. status_in start ⟶* status_in o) (sym e) p
path_of_row start before after p (replaced u e edge fixed) =
    subst (λ o. status_in start ⟶* status_in o) (sym e) (along p edge)

pub Reach-⟶* :
    {S : Type 0} (id : Text) {w w' : World S} → Reach w w' → status_of id w ⟶* status_of id w'
Reach-⟶* id here = stay
Reach-⟶* id {w = w} (next {u} {v} r s) =
    path_of_row (find_tenant id w.tenants) (find_tenant id u.tenants) (find_tenant id v.tenants)
      (Reach-⟶* id r) (Step-row id s)

no-Edge_from_deleted : {s u : Option TenantStatus} → Edge s u → s ≡ some deleted → ⊥
no-Edge_from_deleted create e = cc
no-Edge_from_deleted activate e = cc
no-Edge_from_deleted recover e = cc
no-Edge_from_deleted fail e = cc
no-Edge_from_deleted fail_again e = cc
no-Edge_from_deleted delete_active e = cc
no-Edge_from_deleted delete_failed e = cc
no-Edge_from_deleted cancel e = cc
no-Edge_from_deleted finish e = cc

-- No edge leaves `deleted`.
pub ⟶*-deleted : {s u : Option TenantStatus} → s ⟶* u → s ≡ some deleted → u ≡ some deleted
⟶*-deleted stay e = e
⟶*-deleted (along {r} {s} {u} p edge) e = absurd (no-Edge_from_deleted edge (⟶*-deleted p e))

Fixed-by_row :
    (t : Tenant) (before after : Option Tenant)
    → RowMove before after
    → (v : Tenant) × (before ≡ some v) × Fixed (some t) v
    → (v : Tenant) × (after ≡ some v) × Fixed (some t) v
Fixed-by_row t before after (same e) (v, at, f) = (v, e ∙ at, f)
Fixed-by_row t before after (replaced u e edge fixed) (v, at, f) =
    let g : Fixed (some v) u = subst (λ o. Fixed o u) at fixed in
    (u, e, (g.0 ∙ f.0, g.1 ∙ f.1, g.2 ∙ f.2))

-- A row stays, with its isolation mode, its workflow id and its date.
pub Reach-Fixed :
    {S : Type 0} (id : Text) {w w' : World S} (t : Tenant)
    → Reach w w'
    → find_tenant id w.tenants ≡ some t
    → (v : Tenant) × (find_tenant id w'.tenants ≡ some v) × Fixed (some t) v
Reach-Fixed id t here e = (t, e, (refl, refl, refl))
Reach-Fixed id t (next {u} {v} r s) e =
    Fixed-by_row t (find_tenant id u.tenants) (find_tenant id v.tenants) (Step-row id s)
      (Reach-Fixed id t r e)
