-- ===== src/Contracts/Restoration/Data.antt =====
-- The activities of a restore, by what the run has asked of the provider before them.
use tenantflow.Prelude.{
  ℕ, Text, Option, some, refl, inl, true, ◌≡◌, ◌∷◌, List, ap, sym, subst, ◌∙◌, inr, text_eq,
  text_eq_iff,
}
use tenantflow.Model.{Backup}
use tenantflow.World.{World, Result, ok, err, other, external}
use tenantflow.Cloud.Names.{tenant_database_name}
use tenantflow.Cloud.Provider.{CloudProvider}
use tenantflow.Cloud.Journal.{
  Entry, validated, restored, dumped, Journalled, journalled, is_ok, dump_entry, IsGuarded,
}
use tenantflow.Repository.{get_backup, select_backup}
use tenantflow.Repository.Sorted.{Stands, first, later}
use tenantflow.Activities.Restore.{pre_restore_snapshot, restore_data}
use tenantflow.Contracts.{
  Holds, Keeps, Holds-pure, Holds-raise, Holds-if, Holds-external, Holds-statement,
}
use tenantflow.Contracts.Stages.{Holds-next}
use tenantflow.Contracts.Statements.{Holds-select}
use tenantflow.Contracts.Restoration.{row_of, IsOwnFile, IsBehindDump, EndsRestored}

-- Every request so far was one that the journal before it allows.
abbrev pub Guarded : Text → Option Backup → List Entry → Type 0
Guarded id found j = IsGuarded (IsBehindDump id found (tenant_database_name id)) j

module _ {S : Type 0} (id : Text) (n : ℕ) (found : Option Backup) where
  -- Before the dump: the row is the one that was there at first.
  abbrev pub Begun : World (Journalled S) → Type 0
  Begun w = Guarded id found w.ext.1 × (row_of n w ≡ found)

  -- Behind the dump into `f`.
  abbrev pub Dumped : Text → World (Journalled S) → Type 0
  Dumped f w =
      Guarded id found w.ext.1
      × Stands (dumped (tenant_database_name id) f) w.ext.1
      × (row_of n w ≡ found)

  abbrev pub Restored : World (Journalled S) → Type 0
  Restored w =
      (file : Text) × IsOwnFile id found file × EndsRestored (tenant_database_name id) file w.ext.1

  abbrev pub Ending : Text → World (Journalled S) → Type 0
  Ending f w = Dumped f w × Restored w

  -- Behind the look for the row, and the test of its tenant.
  abbrev Chosen : Text → Backup → World (Journalled S) → Type 0
  Chosen f row w = Dumped f w × (found ≡ some row) × (row.tenant_id ≡ id)

module _ {S : Type 0} (p : CloudProvider S) (id : Text) (n : ℕ) (found : Option Backup) where
  abbrev live : Text
  live = tenant_database_name id

  abbrev cloud : CloudProvider (Journalled S)
  cloud = journalled p

  pub Keeps-restore_dump :
      (f : Text)
      → Keeps (Dumped id n found f) (external (cloud.restore_database_from_backup live f))
  Keeps-restore_dump f =
      Holds-external (cloud.restore_database_from_backup live f)
        (λ w i. ((inr (f, i.1, inl refl), i.0), later i.1, i.2)) (λ w a i e. tt)

  dump_entry_allowed :
      (r : Result Text) (older : List Entry)
      → Guarded id found older
      → Guarded id found (dump_entry live r ∷ older)
  dump_entry_allowed (ok f) older i = (tt, i)
  dump_entry_allowed (err e) older i = (tt, i)

  dump_entry-Stands :
      (r : Result Text) (f : Text) (older : List Entry)
      → r ≡ ok f
      → Stands (dumped live f) (dump_entry live r ∷ older)
  dump_entry-Stands r f older e =
      subst (λ x. Stands (dumped live f) (dump_entry live x ∷ older)) (sym e) first

  pub Holds-dump :
      Holds
        (Begun id n found)
        (Begun id n found)
        (λ f w. Dumped id n found f w)
        (pre_restore_snapshot cloud id)
  unfolding pre_restore_snapshot
  Holds-dump =
      Holds-external (cloud.snapshot_database id)
        (λ w i. (dump_entry_allowed (p.snapshot_database id w.ext.0).0 w.ext.1 i.0, i.1))
        (λ w f i e. (
          dump_entry_allowed (p.snapshot_database id w.ext.0).0 w.ext.1 i.0,
          dump_entry-Stands (p.snapshot_database id w.ext.0).0 f w.ext.1 e,
          i.1,
        ))

  Holds-restore_own :
      (f : Text) (row : Backup)
      → Holds
          (Chosen id n found f row)
          (Dumped id n found f)
          (λ a w.
            Chosen id n found f row w
            × ((older : List Entry) × (w.ext.1 ≡ restored live row.filename true ∷ older)))
          (external (cloud.restore_database_from_backup live row.filename))
  Holds-restore_own f row =
      Holds-external (cloud.restore_database_from_backup live row.filename)
        (λ w i. ((inr (f, i.0.1, inr (row, i.1, i.2, refl)), i.0.0), later i.0.1, i.0.2))
        (λ w a i e. (
          (((inr (f, i.0.1, inr (row, i.1, i.2, refl)), i.0.0), later i.0.1, i.0.2), i.1, i.2),
          (w.ext.1, ap (λ r. restored live row.filename (is_ok r) ∷ w.ext.1) e),
        ))

  Holds-validate_own :
      (f : Text) (row : Backup)
      → Holds
          (λ w.
            Chosen id n found f row w
            × ((older : List Entry) × (w.ext.1 ≡ restored live row.filename true ∷ older)))
          (Dumped id n found f)
          (λ a w. Ending id n found f w)
          (external (cloud.validate_database live))
  Holds-validate_own f row =
      Holds-external (cloud.validate_database live) (λ w i. ((tt, i.0.0.0), later i.0.0.1, i.0.0.2))
        (λ w a i e. (
          ((tt, i.0.0.0), later i.0.0.1, i.0.0.2),
          (
            row.filename,
            (row, i.0.1, i.0.2, refl),
            (
              i.1.0,
              ap (λ r. validated live (is_ok r) ∷ w.ext.1) e
                  ∙ ap (λ j. validated live true ∷ j) i.1.1,
            ),
          ),
        ))

  pub Holds-restore_data :
      (f : Text)
      → Holds
          (Dumped id n found f)
          (Dumped id n found f)
          (λ a w. Ending id n found f w)
          (restore_data cloud id n)
  unfolding restore_data get_backup select_backup
  Holds-restore_data f =
      Holds-next {Q = λ row w. Dumped id n found f w × (found ≡ some row)} _ _
        (Holds-statement (select_backup n) (λ u rest k i. i) (λ u i. i)
          (Holds-select (λ w. row_of n w) (λ w row i e. (i, sym i.2 ∙ e))))
        λ row.
          Holds-next {Q = λ a w. Chosen id n found f row w} _ _
            (Holds-if (text_eq row.tenant_id id) _ _
              (λ h.
                Holds-pure tt (λ w i. i.0) (λ w i. (i.0, i.1, (text_eq_iff row.tenant_id id).0 h)))
              (λ h. Holds-raise other (λ w i. i.0)))
            λ a. Holds-next _ _ (Holds-restore_own f row) (λ a. Holds-validate_own f row)
