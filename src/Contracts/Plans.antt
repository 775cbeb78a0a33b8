-- ===== src/Contracts/Plans.antt =====
-- Contracts of the activities that read and write a tenant's plan.
use tenantflow.Prelude.{
  ℕ, Text, ⊤, ◌≡◌, ap, ◌∙◌, List, Option, none, some, Bool-cases, inl, inr, if◌then◌else◌, is_some,
  text_eq_refl, ◌&&◌, ◌⊎◌,
}
use tenantflow.Model.{Quota, Tenant, active, same_status}
use tenantflow.World.{
  World, ok, other, find_tenant, find_quota, put_quota, find_quota-put_quota, raise, or_not_found,
  advance,
}
use tenantflow.Repository.{
  get_tenant, select_tenant, get_quota, set_quota, upsert_quota, or_default, fits_columns,
}
use tenantflow.Activities.Upgrade.{verify_tenant_active, raise_quotas, raised, rollback_quotas}
use tenantflow.Contracts.{
  Holds, Keeps, Holds-pure, Holds-raise, Holds-if, Holds-statement, Holds-bind, Holds-weaken,
}
use tenantflow.Contracts.Statements.{IgnoresTrail, Keeps-record_event}

-- The plan that the store answers for a tenant.
abbrev pub plan_of : {S : Type 0} → Text → World S → Quota
plan_of id w = or_default (find_quota id w.quotas)

-- The plan of the tenant is `q`.
abbrev pub AtPlan : {S : Type 0} → Text → Quota → World S → Type 0
AtPlan id q w = plan_of id w ≡ q

-- The plan of the tenant is `q`, or is `q` raised.
abbrev pub AtOneOf : {S : Type 0} → Text → Quota → World S → Type 0
AtOneOf id q w = AtPlan id q w ⊎ AtPlan id (raised q) w

plan_after_put :
    (id : Text) (q : Quota) (qs : List (Text × Quota))
    → or_default (find_quota id (put_quota id q qs)) ≡ q
plan_after_put id q qs =
    ap or_default (find_quota-put_quota id id q qs)
    ∙ ap (λ b. or_default (if b then some q else find_quota id qs)) (text_eq_refl id)

module _ {S : Type 0} (id : Text) where
  upsert_quota_ends :
      (q : Quota) (w : World S) (I : World S → Type 0)
      → I w
      → ((u : World S) → AtPlan id q u → I u)
      → I (upsert_quota id q w).1
  unfolding upsert_quota
  upsert_quota_ends q w I i allowed =
      elim (Bool-cases (is_some (find_tenant id w.tenants) && fits_columns q)) [
        | inl fits ↦ rw fits (allowed _ (plan_after_put id q w.quotas))
        | inr unfit ↦ rw unfit i
      ]

  upsert_quota_gives :
      (q : Quota) (w : World S) (a : ⊤)
      → (upsert_quota id q w).0 ≡ ok a
      → AtPlan id q (upsert_quota id q w).1
  unfolding upsert_quota
  upsert_quota_gives q w a e =
      elim (Bool-cases (is_some (find_tenant id w.tenants) && fits_columns q)) [
        | inl fits ↦ rw fits (plan_after_put id q w.quotas)
        | inr unfit ↦ absurd (cc (rw unfit at e))
      ]

  -- A write of a plan that `I` allows keeps `I`, and its success means that the plan is there.
  Holds-set_quota :
      (q : Quota) (I : World S → Type 0)
      → ((w : World S) (rest : _) (c : ℕ) → I w → I (advance w rest c))
      → ((w : World S) → AtPlan id q w → I w)
      → Holds I I (λ _ w. AtPlan id q w) (set_quota id q)
  unfolding set_quota
  Holds-set_quota q I clock allowed =
      Holds-statement (upsert_quota id q) clock (λ w i. i)
        (record {
          ends = λ w i. upsert_quota_ends q w I i allowed;
          gives = λ w a i e. upsert_quota_gives q w a e;
        })

  Holds-get_quota :
      (q : Quota) → Holds (AtPlan {S = S} id q) (AtPlan id q) (λ a w. a ≡ q) (get_quota id)
  unfolding get_quota
  Holds-get_quota q =
      Holds-statement _ (λ w rest c i. i) (λ w i. i)
        (record { ends = λ w i. i; gives = λ w a i e. cc (e, i) })

  found_keeps :
      (o : Option Tenant) (w : World S) (I : World S → Type 0) → I w → I (or_not_found o w).1
  found_keeps none w I i = i
  found_keeps (some t) w I i = i

  Keeps-get_tenant :
      (I : World S → Type 0)
      → ((w : World S) (rest : _) (c : ℕ) → I w → I (advance w rest c))
      → Keeps I (get_tenant id)
  unfolding get_tenant select_tenant
  Keeps-get_tenant I clock =
      Holds-statement _ clock (λ w i. i)
        (record {
          ends = λ w i. found_keeps (find_tenant id w.tenants) w I i;
          gives = λ w a i e. tt;
        })

  pub ignores_AtPlan : (q : Quota) → IgnoresTrail (AtPlan {S = S} id q)
  ignores_AtPlan q = record { of_clock = λ w rest c i. i; of_event = λ w e i. i }

  pub ignores_AtOneOf : (q : Quota) → IgnoresTrail (AtOneOf {S = S} id q)
  ignores_AtOneOf q = record { of_clock = λ w rest c i. i; of_event = λ w e i. i }

  pub Holds-verify_tenant_active :
      (q : Quota)
      → Holds (AtPlan {S = S} id q) (AtPlan id q) (λ a w. a ≡ q) (verify_tenant_active id)
  unfolding verify_tenant_active
  Holds-verify_tenant_active q =
      Holds-bind _ _ (Keeps-get_tenant (AtPlan id q) (λ w rest c i. i)) (λ w i. i)
        (λ tenant.
          Holds-if (same_status tenant.status active) (get_quota id) (raise other)
            (λ h. Holds-weaken (λ w i. i.0) (λ w i. i) (λ a w e. e) (Holds-get_quota q))
            (λ h. Holds-raise other (λ w i. i.0)))

  pub Holds-raise_quotas :
      (q : Quota)
      → Holds
          (AtOneOf {S = S} id q)
          (AtOneOf id q)
          (λ a w. AtPlan id (raised q) w)
          (raise_quotas id q)
  unfolding raise_quotas
  Holds-raise_quotas q =
      Holds-bind _ _ (Holds-set_quota (raised q) (AtOneOf id q) (λ w rest c i. i) (λ w at. inr at))
        (λ w i. i) (λ a. Holds-pure _ (λ w i. i.0) (λ w i. i.1))

  pub Keeps-rollback_quotas : (q : Quota) → Keeps (AtOneOf {S = S} id q) (rollback_quotas id q)
  unfolding rollback_quotas
  Keeps-rollback_quotas q =
      Holds-bind _ _ (Holds-set_quota q (AtOneOf id q) (λ w rest c i. i) (λ w at. inl at))
        (λ w i. i)
        (λ a.
          Holds-weaken (λ w i. i.0) (λ w i. i) (λ b w e. e)
            (Keeps-record_event (ignores_AtOneOf q) _ _ _))
