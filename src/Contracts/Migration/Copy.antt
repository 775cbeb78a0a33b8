-- ===== src/Contracts/Migration/Copy.antt =====
-- The copy of a migration: MigrateData of internal/activities/migrate.go.
use tenantflow.Prelude.{Text, ⊤, Bool, true, ap, ◌∙◌, inl, List, [], ◌∷◌}
use tenantflow.World.{Result, ok, err, external}
use tenantflow.Cloud.Provider.{CloudProvider}
use tenantflow.Cloud.Journal.{
  Entry, created, dropped, validated, restored, dumped, Journalled, journalled, noting, is_ok,
  dump_entry,
}
use tenantflow.Activities.Migrate.{migrate_data, drop_aux}
use tenantflow.Contracts.{Holds, Keeps, Holds-pure, Holds-external}
use tenantflow.Contracts.Stages.{Holds-next, Holds-with_cleanup}
use tenantflow.Contracts.Migration.{
  Of, live, new, apart, Guarded, Newest, Copied, IsBehindCopy, dumped_only, made_room, created_anew,
  restored_copy,
}

module _ {S : Type 0} (p : CloudProvider S) (id : Text) where
  abbrev cloud : CloudProvider (Journalled S)
  cloud = journalled p

  -- A request that answers only whether it succeeded, behind known ones.
  Holds-request :
      (entry : Bool → Entry) (method : S → Result ⊤ × S) (entries : List Entry)
      → ((b : Bool) (older : List Entry) → IsBehindCopy (live id) (new id) (entry b) older)
      → Holds
          (Of (Newest id entries))
          (Of (Guarded id))
          (λ a. Of (Newest id (entry true ∷ entries)))
          (external (noting (λ r. entry (is_ok r)) method))
  Holds-request entry method entries allowed =
      Holds-external (noting (λ r. entry (is_ok r)) method) (λ w i. (allowed _ w.ext.1, i.0))
        (λ w a i e. (
          (allowed _ w.ext.1, i.0),
          (i.1.0, ap (λ r. entry (is_ok r) ∷ w.ext.1) e ∙ ap (λ j. entry true ∷ j) i.1.1),
        ))

  dump-Guarded :
      (r : Result Text) (j : List Entry)
      → (Guarded id) j
      → (Guarded id) (dump_entry (live id) r ∷ j)
  dump-Guarded (ok f) j i = (tt, i)
  dump-Guarded (err e) j i = (tt, i)

  Holds-dump :
      Holds
        (Of (Guarded id))
        (Of (Guarded id))
        (λ f. Of (Newest id (dumped (live id) f ∷ [])))
        (external (cloud.snapshot_database id))
  Holds-dump =
      Holds-external (cloud.snapshot_database id)
        (λ w i. dump-Guarded (p.snapshot_database id w.ext.0).0 w.ext.1 i)
        (λ w f i e. (
          dump-Guarded (p.snapshot_database id w.ext.0).0 w.ext.1 i,
          (w.ext.1, ap (λ r. dump_entry (live id) r ∷ w.ext.1) e),
        ))

  pub Keeps-drop_new : Keeps (Of (Guarded id)) (drop_aux (journalled p) (new id))
  unfolding drop_aux
  Keeps-drop_new =
      Holds-external (cloud.drop_database_named (new id)) (λ w i. (inl (apart id), i))
        (λ w a i e. tt)

  pub Holds-migrate_data :
      Holds
        (Of (Guarded id))
        (Of (Guarded id))
        (λ f. Of (Copied id f))
        (migrate_data (journalled p) id)
  unfolding migrate_data
  Holds-migrate_data = Holds-next _ _ Holds-dump λ f.
      Holds-next _ _
        (Holds-request (λ b. dropped (new id) b) (p.drop_database_named (new id))
          (dumped_only (live id) f) (λ b j. inl (apart id)))
        λ a.
          Holds-next _ _
            (Holds-request (λ b. created (new id) b) (p.create_database_named (new id))
              (made_room (live id) (new id) f) (λ b j. (apart id)))
            λ a.
              Holds-next _ _
                (Holds-with_cleanup _ _
                  (Holds-request (λ b. restored (new id) f b)
                    (p.restore_database_from_backup (new id) f) (created_anew (live id) (new id) f)
                    (λ b j. inl (apart id)))
                  Keeps-drop_new)
                λ a.
                  Holds-next _ _
                    (Holds-with_cleanup _ _
                      (Holds-request (λ b. validated (new id) b) (p.validate_database (new id))
                        (restored_copy (live id) (new id) f) (λ b j. tt))
                      Keeps-drop_new)
                    λ a. Holds-pure f (λ w i. i.0) (λ w i. (i.0, ([], i.1.0, i.1.1)))
