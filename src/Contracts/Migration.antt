-- ===== src/Contracts/Migration.antt =====
-- What a migration asks of the provider: internal/workflow/migrate.go over any provider, by the journal
-- of the run. Here what is said of the journal; Migration/Copy has the copy, Migration/Switch the switch,
-- and Migration/Requests the whole run.
pub mod Copy
pub mod Switch
pub mod Requests
use tenantflow.Prelude.{
  Text, ⊤, Bool, true, false, ◌≡◌, ◌≢◌, refl, ap, sym, subst, ◌∙◌, ◌⊎◌, inl, inr, List, [], ◌∷◌,
  ◌++◌,
}
use tenantflow.Model.{DatabaseState}
use tenantflow.World.{World, Act, Error, Result, ok, err, joined, external, or_else}
use tenantflow.Cloud.Names.{tenant_database_name, new_db_name}
use tenantflow.Cloud.Names.Distinct.{tenant_database_name-ne-new_db_name}
use tenantflow.Cloud.Provider.{CloudProvider}
use tenantflow.Cloud.Journal.{
  Entry, created, dropped, validated, restored, renamed, dumped, inspected, aside, Journalled,
  journalled, noting, is_ok, dump_entry, inspect_entry, IsGuarded,
}
use tenantflow.Activities.Migrate.{
  migrate_data, drop_aux, promote, switch_traffic, raise_joined, drop_tenant_aux_database,
  mark_tenant_migrating, mark_tenant_migrated, mark_tenant_migrate_failed,
}
use tenantflow.Workflow.Temporal.{Temporal, TemporalLaws}
use tenantflow.Workflow.Migrate.{migrate_tenant_workflow, compensate_migrate}
use tenantflow.Contracts.{
  Holds, Keeps, Anything, Holds-or_else, Holds-pure, Holds-raise, Holds-if, Holds-external,
  Holds-weaken, Holds-execute,
}
use tenantflow.Contracts.Stages.{
  Keeps-gives, Holds-then, Holds-next, Holds-stage, Holds-with_cleanup, Keeps-joining,
}
use tenantflow.Contracts.Statements.{IgnoresTrail, ignores_ext, Keeps-record_event}

abbrev pub dumped_only : Text → Text → List Entry
dumped_only live f = dumped live f ∷ []

abbrev pub made_room : Text → Text → Text → List Entry
made_room live new f = dropped new true ∷ dumped_only live f

abbrev pub created_anew : Text → Text → Text → List Entry
created_anew live new f = created new true ∷ made_room live new f

abbrev pub restored_copy : Text → Text → Text → List Entry
restored_copy live new f = restored new f true ∷ created_anew live new f

-- The requests for a copy, newest first: a dump of the live database into the file, a new database in
-- place of what was there, the file restored into it, and the check, one right after the other and
-- all successful.
abbrev pub copy_of : Text → Text → Text → List Entry
copy_of live new f = validated new true ∷ restored_copy live new f

abbrev pub IsCopied : Text → Text → Text → List Entry → Type 0
IsCopied live new f journal =
    (newer : List Entry) × (older : List Entry) × (journal ≡ newer ++ (copy_of live new f ++ older))

-- The live database is dropped only behind a copy, only the copy is renamed, to the live name, and only
-- the file that the copy was made from is restored into the live database. Nothing else makes a
-- database of that name.
abbrev pub IsBehindCopy : Text → Text → Entry → List Entry → Type 0
IsBehindCopy live new (created n b) older = n ≢ live
IsBehindCopy live new (dropped n b) older = (n ≢ live) ⊎ ((f : Text) × IsCopied live new f older)
IsBehindCopy live new (renamed from to b) older =
    (from ≡ new) × (to ≡ live) × ((f : Text) × IsCopied live new f older)
IsBehindCopy live new (restored n f b) older = (n ≢ live) ⊎ IsCopied live new f older
IsBehindCopy live new _ older = ⊤

-- The newest entries: the live database was dropped, and the copy took its name; or the provider said
-- that there is no copy left to rename, as behind an attempt that renamed it.
abbrev pub EndsSwitched : Text → Text → List Entry → Type 0
EndsSwitched live new journal =
    (older : List Entry) × ((journal ≡ renamed new live true ∷ dropped live true ∷ older)
      ⊎ (journal ≡ inspected new false ∷ older))

-- A predicate of the journal.
abbrev pub Of : {S : Type 0} → (List Entry → Type 0) → World (Journalled S) → Type 0
Of P w = P w.ext.1

module _ (id : Text) where
  abbrev pub live : Text
  live = tenant_database_name id

  abbrev pub new : Text
  new = new_db_name id

  pub apart : new ≢ live
  apart e = tenant_database_name-ne-new_db_name id (sym e)

  abbrev pub Guarded : List Entry → Type 0
  Guarded j = IsGuarded (IsBehindCopy live new) j

  -- The newest entries are these.
  abbrev pub Newest : List Entry → List Entry → Type 0
  Newest entries j = Guarded j × ((older : List Entry) × (j ≡ entries ++ older))

  abbrev pub Copied : Text → List Entry → Type 0
  Copied f j = Guarded j × IsCopied live new f j

  abbrev pub Switched : Text → List Entry → Type 0
  Switched f j = Copied f j × EndsSwitched live new j

  pub still-IsCopied :
      (f : Text) (e : Entry) (j : List Entry) → IsCopied live new f j → IsCopied live new f (e ∷ j)
  still-IsCopied f e j (newer, older, same) = (e ∷ newer, older, ap (λ k. e ∷ k) same)
