-- ===== src/Contracts/Status.antt =====
-- Contracts of the transitions of a status.
use tenantflow.Prelude.{
  Text, ⊤, true, false, ◌≡◌, refl, ap, ◌∙◌, List, [], ◌∷◌, some, Bool-cases, inl, inr,
  if◌then◌else◌, text_eq, text_eq_refl, Option-cases, ◌↔◌, arith,
}
use tenantflow.Activities.Provision.{mark_tenant_active}
use tenantflow.Activities.Deprovision.{mark_tenant_deleted}
use tenantflow.Model.{
  provisioning, active, failed, deleting, deleted, Tenant, TenantStatus, any_status, AuditEventType,
  Payload,
}
use tenantflow.World.{
  World, Act, ok, find_tenant, put_tenant, find_tenant-put_tenant, tenant_id_of_found, ◌>>◌,
}
use tenantflow.Repository.{update_tenant_status_from, update_status}
use tenantflow.Activities.Common.{transition, record_event}
use tenantflow.Lifecycle.Status.{status_of, status_in}
use tenantflow.Contracts.{Holds, Keeps, Holds-statement, Holds-or_else, Holds-raise, Holds-bind}
use tenantflow.Contracts.Statements.{IgnoresTrail, Keeps-record_event}

abbrev pub Anywhere : {S : Type 0} → World S → Type 0
Anywhere w = ⊤

-- The tenant has a row, in the given status.
abbrev pub Has : {S : Type 0} → Text → TenantStatus → World S → Type 0
Has id s w = status_of id w ≡ some s

pub Keeps-Anywhere : {S A : Type 0} (m : Act S A) → Keeps Anywhere m
Keeps-Anywhere m = record { ends = λ w i. tt; gives = λ w a i e. tt }

status_after_put :
    (id : Text) (u : Tenant) (ts : List Tenant)
    → u.tenant_id ≡ id
    → status_in (find_tenant id (put_tenant u ts)) ≡ some u.status
status_after_put id u ts own =
    ap status_in (find_tenant-put_tenant u id ts)
    ∙ ap (λ b. status_in (if b then some u else find_tenant id ts))
        (ap (λ j. text_eq j id) own ∙ text_eq_refl id)

module _ {S : Type 0} (id : Text) where
  pub IgnoresTrail-Has : (s : TenantStatus) → IgnoresTrail (Has {S = S} id s)
  IgnoresTrail-Has s = record { of_clock = λ w rest c i. i; of_event = λ w e i. i }

  update_status_gives :
      (to : TenantStatus) (from : List TenantStatus) (w : World S) (a : ⊤)
      → (update_status id to from w).0 ≡ ok a
      → Has id to (update_status id to from w).1
  unfolding update_status
  update_status_gives to from w a e = elim (Option-cases (find_tenant id w.tenants)) [
    | inl missing ↦ absurd (cc (rw (update_status, missing) at e))
    | inr (t, found) ↦ elim (Bool-cases (any_status from t.status)) [
      | inl allowed ↦
          rw (update_status, found, allowed)
            (status_after_put id _ w.tenants (tenant_id_of_found id t w.tenants found))
      | inr refused ↦ absurd (cc (rw (update_status, found, refused) at e))
    ]
  ]

  -- A compare-and-set of a status succeeds exactly when the tenant has a row in an allowed status.
  update_status_ok_iff :
      (to : TenantStatus) (from : List TenantStatus) (w : World S)
      → ((update_status id to from w).0 ≡ ok tt)
        ↔ ((t : Tenant) × (find_tenant id w.tenants ≡ some t) × (any_status from t.status ≡ true))
  unfolding update_status
  update_status_ok_iff to from w = (
    (λ e. elim (Option-cases (find_tenant id w.tenants)) [
      | inl missing ↦ absurd (cc (rw (update_status, missing) at e))
      | inr (t, found) ↦ elim (Bool-cases (any_status from t.status)) [
        | inl allowed ↦ (t, found, allowed)
        | inr refused ↦ absurd (cc (rw (update_status, found, refused) at e))
      ]
    ]),
    (λ (t, found, allowed). rw (update_status, found, allowed) refl),
  )

  -- A compare-and-set leaves the rows of all other tenants alone.
  update_status-find_tenant :
      (to : TenantStatus) (from : List TenantStatus) (j : Text) (w : World S)
      → text_eq id j ≡ false
      → find_tenant j (update_status id to from w).1.tenants ≡ find_tenant j w.tenants
  unfolding update_status
  update_status-find_tenant to from j w other = elim (Option-cases (find_tenant id w.tenants)) [
    | inl missing ↦ rw (update_status, missing) refl
    | inr (t, found) ↦ elim (Bool-cases (any_status from t.status)) [
      | inl allowed ↦
          rw (update_status, found, allowed)
            (ground (
              arith,
              find_tenant-put_tenant (record t { status = to; updated_at = w.now }) j w.tenants,
              tenant_id_of_found id t w.tenants found,
              other,
            ))
      | inr refused ↦ rw (update_status, found, refused) refl
    ]
  ]

  pub Holds-transition :
      (to : TenantStatus) (from : List TenantStatus)
      → Holds (Anywhere {S = S}) Anywhere (λ a w. Has id to w) (transition id to from)
  unfolding transition update_tenant_status_from
  Holds-transition to from =
      Holds-or_else _ _
        (Holds-statement (update_status id to from) (λ w rest c i. tt) (λ w i. tt)
          (record { ends = λ w i. tt; gives = λ w a i e. update_status_gives to from w a e }))
        (λ w i. tt) (λ e. Holds-raise _ (λ w i. tt))

  -- A transition with its event: every Mark... activity.
  pub Holds-mark :
      (to : TenantStatus) (from : List TenantStatus) (kind : AuditEventType) (payload : Payload)
      → Holds
          (Anywhere {S = S})
          Anywhere
          (λ a w. Has id to w)
          (transition id to from >> record_event id kind payload)
  Holds-mark to from kind payload =
      Holds-bind _ (λ _. record_event id kind payload) (Holds-transition to from) (λ w i. tt)
        (λ a. record {
          ends = λ w i. tt;
          gives = λ w b i e. (Keeps-record_event (IgnoresTrail-Has to) id kind payload).ends w i.1;
        })

  pub Holds-mark_tenant_active :
      Holds (Anywhere {S = S}) Anywhere (λ a w. Has id active w) (mark_tenant_active id)
  unfolding mark_tenant_active
  Holds-mark_tenant_active =
      Holds-mark active (provisioning ∷ failed ∷ []) AuditEventType.tenant_activated []

  pub Holds-mark_tenant_deleted :
      Holds (Anywhere {S = S}) Anywhere (λ a w. Has id deleted w) (mark_tenant_deleted id)
  unfolding mark_tenant_deleted
  Holds-mark_tenant_deleted = Holds-mark deleted (deleting ∷ []) AuditEventType.tenant_deleted []
