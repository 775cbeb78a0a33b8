-- ===== src/Contracts/Endings.antt =====
-- What the success of a deletion and of a provisioning means.
use tenantflow.Prelude.{
  ℕ, Text, ⊤, Bool, true, false, ◌≡◌, sym, ◌∙◌, subst, inl, inr, if◌then◌else◌, ◌⊎◌, some,
}
use tenantflow.Model.{active, deleted, IsolationMode}
use tenantflow.World.{World, Act, ok, Error, raise, or_else, ◌>>=◌}
use tenantflow.Cloud.Provider.{CloudProvider, IdentityProvider}
use tenantflow.Workflow.Temporal.{Temporal, TemporalLaws, joining}
use tenantflow.Activities.Deprovision.{
  mark_tenant_deleted, mark_tenant_deleting, restore_tenant_after_cancel, mark_tenant_delete_failed,
}
use tenantflow.Activities.Provision.{mark_tenant_active}
use tenantflow.Workflow.Delete.{
  DeleteInput, teardown, fresh_delete, grace, compensate_delete, delete_tenant_workflow,
}
use tenantflow.Workflow.Provision.{provision_tenant_workflow, compensate_provision}
use tenantflow.Lifecycle.Steps.{Reach}
use tenantflow.Lifecycle.Status.{status_of, ⟶*-deleted, Reach-⟶*}
use tenantflow.Contracts.{Holds, Holds-if, Holds-or_else, Holds-raise, Holds-execute}
use tenantflow.Contracts.Stages.{Holds-then, Holds-knowing}
use tenantflow.Contracts.Status.{
  Anywhere, Has, Keeps-Anywhere, Holds-mark_tenant_active, Holds-mark_tenant_deleted,
}

module _ {S : Type 0} {rely : World S → World S → Type 0} {t : Temporal S} (p : CloudProvider S)
    (k : IdentityProvider S) (laws : TemporalLaws S rely t) where
  -- After any call, one whose success means `F`.
  finally :
      {A B : Type 0} {F : B → World S → Type 0} (m : Act S A) (f : A → Act S B)
      → ((a : A) → Holds Anywhere Anywhere F (f a))
      → Holds Anywhere Anywhere F (m >>= f)
  finally m f h = Holds-then m f (Keeps-Anywhere m) (λ w i. tt) h

  module _ (others : (w w' : World S) → rely w w' → Reach w w')
      (wait : ℕ → World S → Bool × World S) (versioned : Bool) (i : DeleteInput) where
    Holds-last_mark :
        Holds Anywhere Anywhere
          (λ a w. Has i.tenant_id deleted w)
          (t.execute ⊤ (mark_tenant_deleted i.tenant_id))
    Holds-last_mark =
        Holds-execute laws (λ w w' r x. tt)
          (λ d w w' r x. ⟶*-deleted (Reach-⟶* i.tenant_id (others w w' r)) x)
          (mark_tenant_deleted i.tenant_id) (Holds-mark_tenant_deleted i.tenant_id)

    Holds-teardown :
        Holds Anywhere Anywhere (λ a w. Has i.tenant_id deleted w) (teardown t p k wait versioned i)
    unfolding teardown
    Holds-teardown = search (finally, Holds-last_mark) depth 9

    Holds-fresh_delete :
        ((n : ℕ) (w : World S) → (wait n w).0 ≡ false)
        → Holds Anywhere Anywhere
            (λ a w. Has i.tenant_id deleted w)
            (fresh_delete t p k wait versioned i)
    unfolding fresh_delete grace
    Holds-fresh_delete not_cancelled =
        finally (t.execute ⊤ (mark_tenant_deleting i.tenant_id)) _ (λ a.
          Holds-knowing {F = λ b. b ≡ false} (grace t p k wait versioned i.grace_period) _
            (record {
              ends = λ w x. tt;
              gives = λ w b x e.
                  let same : (wait i.grace_period w).0 ≡ b = cc e in
                  sym same ∙ not_cancelled i.grace_period w;
            })
            (λ w x. tt)
            (λ b b_false.
              subst
                (λ c.
                  Holds Anywhere Anywhere (λ a w. Has i.tenant_id deleted w)
                    (if c
                      then t.execute ⊤ (restore_tenant_after_cancel i.tenant_id)
                      else teardown t p k wait versioned i))
                (sym b_false) Holds-teardown))

    -- Under the laws of an execution, and if the other workflows follow the lifecycle: a deletion
    -- that succeeds, resumed or with a grace period that nobody cancels, leaves the tenant deleted.
    pub delete_success_deletes :
        (i.resume ≡ true) ⊎ ((n : ℕ) (w : World S) → (wait n w).0 ≡ false)
        → (w : World S) → (delete_tenant_workflow t p k wait versioned i w).0 ≡ ok tt
        → status_of i.tenant_id (delete_tenant_workflow t p k wait versioned i w).1 ≡ some deleted
    unfolding delete_tenant_workflow compensate_delete
    delete_success_deletes how w e =
        let body : Holds Anywhere Anywhere (λ a u. Has i.tenant_id deleted u)
            (if i.resume
              then teardown t p k wait versioned i
              else fresh_delete t p k wait versioned i) =
          elim how [
            | inl resumed ↦
                Holds-if i.resume _ _ (λ h. Holds-teardown) (λ h. absurd (cc (h, resumed)))
            | inr quiet ↦
                Holds-if i.resume _ _ (λ h. Holds-teardown) (λ h. Holds-fresh_delete quiet)
          ] in
        let whole : Holds Anywhere Anywhere (λ a u. Has i.tenant_id deleted u)
            (delete_tenant_workflow t p k wait versioned i) =
          Holds-or_else {J = Anywhere} _ _ body (λ u x. tt)
            (λ x.
              finally (joining (t.execute ⊤ (mark_tenant_delete_failed i.tenant_id)) x) _
                (λ y. Holds-raise y (λ u z. tt))) in
        whole.gives w tt tt e

  fails : {A : Type 0} (e : Error) {R : A → World S → Type 0} → Holds Anywhere Anywhere R (raise e)
  fails e = Holds-raise e (λ u i. tt)

  Holds-compensate_provision :
      (id user_id : Text) (db_created : Bool) {A : Type 0} (e : Error) {R : A → World S → Type 0}
      → Holds Anywhere Anywhere R (compensate_provision t p k id user_id db_created {A = A} e)
  unfolding compensate_provision
  Holds-compensate_provision id user_id db_created e = search (finally, fails) depth 9

  Holds-activation :
      (id : Text) (others : (w w' : World S) → rely w w' → status_of id w' ≡ status_of id w)
      (user_id : Text)
      → Holds Anywhere Anywhere
          (λ a u. Has id active u)
          (or_else
            (t.execute ⊤ (mark_tenant_active id))
            (compensate_provision t p k id user_id true))
  Holds-activation id others user_id =
      Holds-or_else {J = Anywhere} _ _
        (Holds-execute laws (λ u v r x. tt) (λ c u v r x. others u v r ∙ x) (mark_tenant_active id)
          (Holds-mark_tenant_active id))
        (λ u x. tt) (λ x. Holds-compensate_provision id user_id true x)

  -- Under the laws of an execution, and if the other workflows leave the tenant's status alone: a
  -- provisioning that succeeds leaves the tenant active.
  pub provision_success_activates :
      (workflow_id id : Text) (mode : IsolationMode)
      → ((w w' : World S) → rely w w' → status_of id w' ≡ status_of id w)
      → (w : World S) → (provision_tenant_workflow t p k workflow_id id mode w).0 ≡ ok tt
      → status_of id (provision_tenant_workflow t p k workflow_id id mode w).1 ≡ some active
  unfolding provision_tenant_workflow
  provision_success_activates workflow_id id mode others w e =
      let whole : Holds Anywhere Anywhere (λ a u. Has id active u)
          (provision_tenant_workflow t p k workflow_id id mode) =
        search (finally, Holds-activation id others) depth 9 in
      whole.gives w tt tt e
