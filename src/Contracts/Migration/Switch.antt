-- ===== src/Contracts/Migration/Switch.antt =====
-- The switch of a migration: SwitchTraffic of internal/activities/migrate.go.
use tenantflow.Prelude.{Text, ⊤, true, ◌≡◌, refl, ap, ◌∙◌, inl, inr, List, ◌∷◌}
use tenantflow.Model.{DatabaseState}
use tenantflow.World.{World, Act, Error, Result, ok, err, joined, external}
use tenantflow.Cloud.Provider.{CloudProvider}
use tenantflow.Cloud.Journal.{
  Entry, dropped, renamed, inspected, Journalled, journalled, is_ok, inspect_entry,
}
use tenantflow.Activities.Migrate.{promote, switch_traffic, raise_joined}
use tenantflow.Contracts.{
  Holds, Keeps, Holds-or_else, Holds-pure, Holds-raise, Holds-if, Holds-external, Holds-weaken,
}
use tenantflow.Contracts.Stages.{Holds-then, Holds-next}
use tenantflow.Contracts.Migration.{Of, live, new, Copied, Switched, still-IsCopied}

module _ {S : Type 0} (p : CloudProvider S) (id : Text) where
  abbrev cloud : CloudProvider (Journalled S)
  cloud = journalled p

  inspect_guarded :
      (r : Result DatabaseState) (f : Text) (j : List Entry)
      → Copied id f j
      → Copied id f (inspect_entry (new id) r ∷ j)
  inspect_guarded (ok d) f j i = ((tt, i.0), still-IsCopied id f _ j i.1)
  inspect_guarded (err e) f j i = ((tt, i.0), still-IsCopied id f _ j i.1)

  Holds-inspect :
      (f : Text)
      → Holds
          (Of (Copied id f))
          (Of (Copied id f))
          (λ d. Of (λ j.
            Copied id f j × ((older : List Entry) × (j ≡ inspected (new id) d.exists ∷ older))))
          (external (cloud.inspect_database (new id)))
  Holds-inspect f =
      Holds-external (cloud.inspect_database (new id))
        (λ w i. inspect_guarded (p.inspect_database (new id) w.ext.0).0 f w.ext.1 i)
        (λ w d i e. (
          inspect_guarded (p.inspect_database (new id) w.ext.0).0 f w.ext.1 i,
          (w.ext.1, ap (λ r. inspect_entry (new id) r ∷ w.ext.1) e),
        ))

  Holds-drop_live :
      (f : Text)
      → Holds
          (Of (Copied id f))
          (Of (Copied id f))
          (λ a.
            Of (λ j. Copied id f j × ((older : List Entry) × (j ≡ dropped (live id) true ∷ older))))
          (external (cloud.drop_database id))
  Holds-drop_live f =
      Holds-external (cloud.drop_database id)
        (λ w i. ((inr (f, i.1), i.0), still-IsCopied id f _ w.ext.1 i.1))
        (λ w a i e. (
          ((inr (f, i.1), i.0), still-IsCopied id f _ w.ext.1 i.1),
          (w.ext.1, ap (λ r. dropped (live id) (is_ok r) ∷ w.ext.1) e),
        ))

  Keeps-restore_live :
      (f : Text)
      → Keeps (Of (Copied id f)) (external (cloud.restore_database_from_backup (live id) f))
  Keeps-restore_live f =
      Holds-external (cloud.restore_database_from_backup (live id) f)
        (λ w i. ((inr i.1, i.0), still-IsCopied id f _ w.ext.1 i.1)) (λ w a i e. tt)

  Holds-raise_joined :
      {I : World (Journalled S) → Type 0} {R : ⊤ → World (Journalled S) → Type 0} (e : Error)
      (m : Act (Journalled S) ⊤)
      → Keeps I m
      → Holds I I R (raise_joined e m)
  unfolding raise_joined
  Holds-raise_joined e m h =
      Holds-then _ _ (Holds-or_else _ _ h (λ w i. i) (λ f. Holds-raise (joined e f) (λ w i. i)))
        (λ w i. i) (λ a. Holds-raise e (λ w i. i))

  Holds-promote :
      (f : Text)
      → Holds
          (Of (λ j. Copied id f j × ((older : List Entry) × (j ≡ dropped (live id) true ∷ older))))
          (Of (Copied id f))
          (λ a. Of (Switched id f))
          (promote (journalled p) id f)
  unfolding promote
  Holds-promote f =
      Holds-or_else {J = Of (Copied id f)} _ _
        (Holds-external (cloud.rename_database (new id) (live id))
          (λ w i. (((refl, refl, (f, i.0.1)), i.0.0), still-IsCopied id f _ w.ext.1 i.0.1))
          (λ w a i e. (
            (((refl, refl, (f, i.0.1)), i.0.0), still-IsCopied id f _ w.ext.1 i.0.1),
            (
              i.1.0,
              inl (
                  ap (λ r. renamed (new id) (live id) (is_ok r) ∷ w.ext.1) e
                  ∙ ap (λ j. renamed (new id) (live id) true ∷ j) i.1.1),
            ),
          )))
        (λ w i. i) (λ e. Holds-raise_joined e _ (Keeps-restore_live f))

  pub Holds-switch_traffic :
      (f : Text)
      → Holds
          (Of (Copied id f))
          (Of (Copied id f))
          (λ a. Of (Switched id f))
          (switch_traffic (journalled p) id f)
  unfolding switch_traffic
  Holds-switch_traffic f = Holds-next _ _ (Holds-inspect f) λ d.
      Holds-if d.exists _ _
        (λ there.
          Holds-weaken (λ w i. i.0) (λ w i. i) (λ a w r. r)
            (Holds-next _ _ (Holds-drop_live f) (λ a. Holds-promote f)))
        (λ gone.
          Holds-pure tt (λ w i. i.0)
            (λ w i. (i.0, (i.1.0, inr (i.1.1 ∙ ap (λ b. inspected (new id) b ∷ i.1.0) gone)))))
