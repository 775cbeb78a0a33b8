-- ===== src/Contracts/Upgrade.antt =====
-- What an upgrade does to the plan, although its activities may run more than once.
use tenantflow.Prelude.{Text, ⊤, Bool, true, false, ◌≡◌, refl, ◌∙◌, inl, inr}
use tenantflow.Model.{Quota}
use tenantflow.World.{World, Act, ok, Error, or_else, ◌>>=◌, ◌>>◌}
use tenantflow.Activities.Upgrade.{
  verify_tenant_active, raise_quotas, raised, enable_features, update_billing,
  mark_tenant_upgrading, mark_tenant_upgraded, mark_tenant_upgrade_failed,
}
use tenantflow.Workflow.Temporal.{Temporal, TemporalLaws}
use tenantflow.Workflow.Upgrade.{compensate_upgrade, upgrade_tenant_workflow, zero_quota}
use tenantflow.Contracts.{
  Holds, Keeps, Holds-pure, Holds-raise, Holds-if, Holds-weaken, Holds-execute,
}
use tenantflow.Contracts.Stages.{
  Holds-then, Keeps-joining, Holds-given, Keeps-gives, Holds-stage, Holds-next,
}
use tenantflow.Contracts.Statements.{Keeps-record_event}
use tenantflow.Contracts.Plans.{
  plan_of, AtPlan, AtOneOf, ignores_AtPlan, ignores_AtOneOf, Holds-verify_tenant_active,
  Holds-raise_quotas, Keeps-rollback_quotas,
}

module _ {S : Type 0} {rely : World S → World S → Type 0} {t : Temporal S}
    (laws : TemporalLaws S rely t) (id : Text)
    (others : (w w' : World S) → rely w w' → plan_of id w' ≡ plan_of id w) where
  stable_AtPlan : (q : Quota) (w w' : World S) → rely w w' → AtPlan id q w → AtPlan id q w'
  stable_AtPlan q w w' r i = others w w' r ∙ i

  stable_AtOneOf : (q : Quota) (w w' : World S) → rely w w' → AtOneOf id q w → AtOneOf id q w'
  stable_AtOneOf q w w' r (inl i) = inl (stable_AtPlan q w w' r i)
  stable_AtOneOf q w w' r (inr i) = inr (stable_AtPlan (raised q) w w' r i)

  -- An activity that keeps every predicate of the trail's kind, run at some stage.
  run :
      {A : Type 0} {I : World S → Type 0} (m : Act S A)
      → ((w w' : World S) → rely w w' → I w → I w')
      → Keeps I m
      → Keeps I (t.execute A m)
  run m stable h = Holds-execute laws stable (λ a w w' r x. x) m h

  Keeps-compensate_upgrade :
      (q : Quota) (was_raised : Bool) {A : Type 0} (e : Error) {R : A → World S → Type 0}
      → Holds (AtOneOf id q) (AtOneOf id q) R (compensate_upgrade t id q was_raised {A = A} e)
  unfolding compensate_upgrade mark_tenant_upgrade_failed
  Keeps-compensate_upgrade q was_raised e =
      Holds-then _ _
        (Holds-if was_raised _ _
          (λ h. Keeps-joining _ e (run _ (stable_AtOneOf q) (Keeps-rollback_quotas id q)))
          (λ h. Holds-pure e (λ w i. i) (λ w i. tt)))
        (λ w i. i)
        (λ e1.
          Holds-then _ _
            (Keeps-joining _ e1
              (run _ (stable_AtOneOf q) (Keeps-record_event (ignores_AtOneOf id q) _ _ _)))
            (λ w i. i) (λ e2. Holds-raise e2 (λ w i. i)))

  -- A step that only writes to the trail, at a stage `I`, with its compensation.
  Holds-trail_step :
      (q : Quota) {I : World S → Type 0} (m : Act S ⊤) (old : Quota) (was_raised : Bool)
      → Keeps I m
      → ((w w' : World S) → rely w w' → I w → I w')
      → ((w : World S) → I w → AtOneOf id q w)
      → ((e : Error)
          → Holds I (AtOneOf id q) (λ a w. I w) (compensate_upgrade t id old was_raised {A = ⊤} e))
      → Holds I
          (AtOneOf id q)
          (λ a w. I w)
          (or_else (t.execute ⊤ m) (compensate_upgrade t id old was_raised))
  Holds-trail_step q m old was_raised h stable weaker handled =
      Holds-stage laws stable (λ a w w' r i. stable w w' r i) m _ (Keeps-gives h) weaker handled

  Holds-no_rollback :
      (q old : Quota) {A : Type 0} (e : Error) {R : A → World S → Type 0}
      → Holds (AtPlan id q) (AtOneOf id q) R (compensate_upgrade t id old false {A = A} e)
  unfolding compensate_upgrade mark_tenant_upgrade_failed
  Holds-no_rollback q old e =
      Holds-then _ _
        (Keeps-joining _ e
          (run _ (stable_AtPlan q) (Keeps-record_event (ignores_AtPlan id q) _ _ _)))
        (λ w i. inl i) (λ e2. Holds-raise e2 (λ w i. inl i))

  Holds-rollback :
      (q : Quota) {A : Type 0} (e : Error) {R : A → World S → Type 0}
      → Holds (AtPlan id (raised q)) (AtOneOf id q) R (compensate_upgrade t id q true {A = A} e)
  Holds-rollback q e =
      Holds-weaken (λ w i. inr i) (λ w i. i) (λ a w r. r) (Keeps-compensate_upgrade q true e)

  -- What follows a raise, one step as the others.
  Holds-after_raise :
      (q : Quota) (m : Act S ⊤)
      → Keeps (AtPlan id (raised q)) m
      → Holds
          (AtPlan id (raised q))
          (AtOneOf id q)
          (λ a w. AtPlan id (raised q) w)
          (or_else (t.execute ⊤ m) (compensate_upgrade t id q true))
  Holds-after_raise q m h =
      Holds-trail_step q m q true h (stable_AtPlan (raised q)) (λ w i. inr i)
        (λ e. Holds-rollback q e)

  -- The workflow behind VerifyTenantActive.
  abbrev after_verify : Quota → Act S ⊤
  after_verify old_quota = do
    new_quota ←
        or_else (t.execute Quota (raise_quotas id old_quota))
          (compensate_upgrade t id old_quota false)
    or_else (t.execute ⊤ (enable_features id)) (compensate_upgrade t id old_quota true)
    or_else (t.execute ⊤ (update_billing id)) (compensate_upgrade t id old_quota true)
    or_else (t.execute ⊤ (mark_tenant_upgraded id)) (compensate_upgrade t id old_quota true)

  Holds-upgrade_tenant_workflow :
      (q : Quota)
      → Holds
          (AtPlan id q)
          (AtOneOf id q)
          (λ a w. AtPlan id (raised q) w)
          (upgrade_tenant_workflow t id)
  unfolding upgrade_tenant_workflow mark_tenant_upgrading enable_features update_billing
      mark_tenant_upgraded
  Holds-upgrade_tenant_workflow q =
      Holds-next _ _
        (Holds-trail_step q _ zero_quota false (Keeps-record_event (ignores_AtPlan id q) _ _ _)
          (stable_AtPlan q) (λ w i. inl i) (λ e. Holds-no_rollback q zero_quota e))
        (λ a.
          Holds-next _ after_verify
            (Holds-stage {I = AtPlan id q} {Q = λ old w. AtPlan id q w × (old ≡ q)} laws
              (stable_AtPlan q) (λ b w w' r i. (stable_AtPlan q w w' r i.0, i.1))
              (verify_tenant_active id) _
              (record {
                ends = (Holds-verify_tenant_active id q).ends;
                gives = λ w b i e. (
                  (Holds-verify_tenant_active id q).ends w i,
                  (Holds-verify_tenant_active id q).gives w b i e,
                );
              })
              (λ w i. inl i) (λ e. Holds-no_rollback q zero_quota e))
            (λ old. Holds-given (λ e. rw e (
              Holds-next _ _
                (Holds-weaken (λ w i. inl i) (λ w i. i) (λ b w r. r)
                  (Holds-stage {I = AtOneOf id q} laws (stable_AtOneOf q)
                    (λ b w w' r i. stable_AtPlan (raised q) w w' r i) (raise_quotas id q) _
                    (Holds-raise_quotas id q) (λ w i. i) (λ x. Keeps-compensate_upgrade q false x)))
                (λ b.
                  Holds-next _ _ (Holds-after_raise q _ (Holds-pure tt (λ w i. i) (λ w i. tt)))
                    (λ c.
                      Holds-next _ _ (Holds-after_raise q _ (Holds-pure tt (λ w i. i) (λ w i. tt)))
                        (λ d.
                          Holds-after_raise q _
                            (Keeps-record_event (ignores_AtPlan id (raised q)) _ _ _))))))))

  -- Under the laws of an execution, and if the other workflows leave the tenant's plan alone: an
  -- upgrade, however it ends and however often its activities are run, leaves the plan as it was or
  -- raised once, never raised twice.
  pub upgrade_raises_at_most_once :
      (w : World S) → AtOneOf id (plan_of id w) (upgrade_tenant_workflow t id w).1
  upgrade_raises_at_most_once w = (Holds-upgrade_tenant_workflow (plan_of id w)).ends w refl

  -- Under the laws of an execution, and if the other workflows leave the tenant's plan alone: an
  -- upgrade that succeeds leaves the plan raised exactly once.
  pub upgrade_success_raises :
      (w : World S)
      → (upgrade_tenant_workflow t id w).0 ≡ ok tt
      → plan_of id (upgrade_tenant_workflow t id w).1 ≡ raised (plan_of id w)
  upgrade_success_raises w e = (Holds-upgrade_tenant_workflow (plan_of id w)).gives w tt refl e
