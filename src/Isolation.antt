-- ===== src/Isolation.antt =====
-- What a workflow leaves alone outside the control-plane database: a rule for each way to build a
-- call, and for the statements, which touch nothing outside. Isolation/Activities and
-- Isolation/Workflows have the calls, Isolation/Tenants what it means for another tenant.

pub mod Activities
pub mod Workflows
pub mod Deletion
pub mod Tenants
use tenantflow.Prelude.{
  ℕ, Text, ⊤, Bool, true, false, ◌≡◌, refl, sym, subst, arith, List, [], ◌∷◌, Option, none, some,
  if◌then◌else◌,
}
use tenantflow.Model.{Tenant, TenantStatus, Quota, AuditEvent}
use tenantflow.World.{
  World, Act, Result, ok, err, Error, Outcome, done, refused, lost, Answer, statement, pure, raise,
  ◌>>=◌, or_else, ignoring, external, advance, answered, by_outcome, or_not_found,
}
use tenantflow.Repository.{
  create_tenant, insert_tenant, get_tenant, select_tenant, update_tenant_status_from, update_status,
  write_event, insert_event, create_backup, insert_backup, get_backup, select_backup, list_backups,
  mark_backup_completed, mark_backup_failed, set_quota, upsert_quota, get_quota,
}
use tenantflow.Cloud.Names.{tenant_database_name, new_db_name, temp_db_name}
use tenantflow.Cloud.Provider.{CloudProvider, IdentityProvider}
use tenantflow.Workflow.Temporal.{Temporal, TemporalLaws}

-- Whatever it answers, the call keeps what `P` says of the outside.
pub record Spares {S A : Type 0} (P : S → Type 0) (m : Act S A) : Type 0 where
  pub keeps : (w : World S) → P w.ext → P (m w).1.ext

-- The same of a provider's method.
abbrev pub Keeping : {S A : Type 0} → (S → Type 0) → (S → Result A × S) → Type 0
Keeping {S} P f = (s : S) → P s → P (f s).1

-- What the methods that work for the tenant `id` keep.
pub record Bystander {S : Type 0} (P : S → Type 0) (p : CloudProvider S) (id : Text) : Type 0 where
  pub created : Keeping P (p.create_database id)
  pub dropped : Keeping P (p.drop_database id)
  pub role_dropped : Keeping P (p.drop_tenant_role id)
  pub new_created : Keeping P (p.create_database_named (new_db_name id))
  pub temp_created : Keeping P (p.create_database_named (temp_db_name id))
  pub new_dropped : Keeping P (p.drop_database_named (new_db_name id))
  pub temp_dropped : Keeping P (p.drop_database_named (temp_db_name id))
  pub dumped : Keeping P (p.snapshot_database id)
  pub live_restored :
      (f : Text) → Keeping P (p.restore_database_from_backup (tenant_database_name id) f)
  pub new_restored : (f : Text) → Keeping P (p.restore_database_from_backup (new_db_name id) f)
  pub temp_restored : (f : Text) → Keeping P (p.restore_database_from_backup (temp_db_name id) f)
  pub promoted : Keeping P (p.rename_database (new_db_name id) (tenant_database_name id))
  pub validated : (n : Text) → Keeping P (p.validate_database n)
  pub inspected : (n : Text) → Keeping P (p.inspect_database n)
  pub role_checked : (n : Text) → Keeping P (p.role_exists n)
  pub owned : Keeping P (p.ensure_database_ownership (tenant_database_name id))

-- The identity provider stands apart from the databases.
pub record Apart {S : Type 0} (P : S → Type 0) (k : IdentityProvider S) : Type 0 where
  pub found : (n : Text) → Keeping P (k.get_user_by_username n)
  pub user_created :
      (n email password first last : Text) → Keeping P (k.create_user n email password first last)
  pub role_given : (user role : Text) → Keeping P (k.assign_role user role)
  pub user_deleted : (user : Text) → Keeping P (k.delete_user user)

module _ {S A : Type 0} {P : S → Type 0} where
  pub Spares-pure : (a : A) → Spares P (pure a)
  Spares-pure a = record { keeps = λ w i. i }

  pub Spares-raise : (e : Error) → Spares {A = A} P (raise e)
  Spares-raise e = record { keeps = λ w i. i }

  pub Spares-external : (f : S → Result A × S) → Keeping P f → Spares P (external f)
  Spares-external f h = record { keeps = λ w i. h w.ext i }

  pub Spares-if :
      (b : Bool) (m n : Act S A) → Spares P m → Spares P n → Spares P (if b then m else n)
  Spares-if true m n sm sn = sm
  Spares-if false m n sm sn = sn

  by_outcome_spares :
      (o : Outcome) (m : Act S A) (w : World S) → Spares P m → P w.ext → P (by_outcome o m w).1.ext
  by_outcome_spares done m w s i = s.keeps w i
  by_outcome_spares refused m w s i = i
  by_outcome_spares lost m w s i = s.keeps w i

  answered_spares :
      (answers : List Answer) (m : Act S A) (w : World S)
      → Spares P m
      → P w.ext
      → P (answered answers m w).1.ext
  answered_spares [] m w s i = s.keeps w i
  answered_spares (a ∷ rest) m w s i = by_outcome_spares a.outcome m (advance w rest a.clock) s i

  -- A statement whose effect leaves the outside as it is.
  Spares-statement : (m : Act S A) → ((w : World S) → (m w).1.ext ≡ w.ext) → Spares P (statement m)
  unfolding statement
  Spares-statement m same = record {
    keeps =
        λ w i. answered_spares w.answers m w (record { keeps = λ u j. subst P (sym (same u)) j }) i;
  }

  handle_spares :
      (r : Result A) (f : Error → Act S A) (w : World S)
      → ((e : Error) → Spares P (f e))
      → P w.ext
      → P (or_else (λ u. (r, u)) f w).1.ext
  handle_spares (ok a) f w sf i = i
  handle_spares (err e) f w sf i = (sf e).keeps w i

  pub Spares-or_else :
      (m : Act S A) (f : Error → Act S A)
      → Spares P m
      → ((e : Error) → Spares P (f e))
      → Spares P (or_else m f)
  Spares-or_else m f sm sf = record {
    keeps = λ w i. handle_spares (m w).0 f (m w).1 sf (sm.keeps w i);
  }

  -- An execution, if others keep `P` too.
  pub Spares-execute :
      {rely : World S → World S → Type 0} {t : Temporal S}
      → TemporalLaws S rely t
      → ((w w' : World S) → rely w w' → P w.ext → P w'.ext)
      → (m : Act S A) → Spares P m
      → Spares P (t.execute A m)
  Spares-execute laws others m s = record {
    keeps = λ w i. laws.keeps A m (λ u. P u.ext) others s.keeps w i;
  }

module _ {S A B : Type 0} {P : S → Type 0} where
  continue_spares :
      (r : Result A) (f : A → Act S B) (w : World S)
      → ((a : A) → Spares P (f a))
      → P w.ext
      → P (◌>>=◌ (λ u. (r, u)) f w).1.ext
  continue_spares (ok a) f w sf i = (sf a).keeps w i
  continue_spares (err e) f w sf i = i

  pub Spares-bind :
      (m : Act S A) (f : A → Act S B) → Spares P m → ((a : A) → Spares P (f a)) → Spares P (m >>= f)
  Spares-bind m f sm sf = record {
    keeps = λ w i. continue_spares (m w).0 f (m w).1 sf (sm.keeps w i);
  }

pub Spares-ignoring :
    {S : Type 0} {P : S → Type 0} (m : Act S ⊤) → Spares P m → Spares P (ignoring m)
Spares-ignoring m s = record { keeps = s.keeps }

or_not_found-ext : {S A : Type 0} (o : Option A) (w : World S) → (or_not_found o w).1.ext ≡ w.ext
or_not_found-ext none w = refl
or_not_found-ext (some a) w = refl

module _ {S : Type 0} {P : S → Type 0} where
  pub Spares-create_tenant : (t : Tenant) → Spares P (create_tenant t)
  unfolding create_tenant insert_tenant
  Spares-create_tenant t = Spares-statement (insert_tenant t) (λ w. ground arith)

  pub Spares-get_tenant : (id : Text) → Spares P (get_tenant id)
  unfolding get_tenant select_tenant
  Spares-get_tenant id = Spares-statement (select_tenant id) (λ w. or_not_found-ext _ w)

  pub Spares-update_tenant_status_from :
      (id : Text) (to : TenantStatus) (from : List TenantStatus)
      → Spares P (update_tenant_status_from id to from)
  unfolding update_tenant_status_from update_status
  Spares-update_tenant_status_from id to from =
      Spares-statement (update_status id to from) (λ w. ground arith)

  pub Spares-write_event : (e : AuditEvent) → Spares P (write_event e)
  unfolding write_event insert_event
  Spares-write_event e = Spares-statement (insert_event e) (λ w. ground arith)

  pub Spares-create_backup : (id file : Text) → Spares P (create_backup id file)
  unfolding create_backup insert_backup
  Spares-create_backup id file = Spares-statement (insert_backup id file) (λ w. ground arith)

  pub Spares-get_backup : (n : ℕ) → Spares P (get_backup n)
  unfolding get_backup select_backup
  Spares-get_backup n = Spares-statement (select_backup n) (λ w. or_not_found-ext _ w)

  pub Spares-list_backups : (id : Text) → Spares P (list_backups id)
  unfolding list_backups
  Spares-list_backups id = Spares-statement _ (λ w. refl)

  pub Spares-mark_backup_completed : (n : ℕ) → Spares P (mark_backup_completed n)
  unfolding mark_backup_completed
  Spares-mark_backup_completed n = Spares-statement _ (λ w. refl)

  pub Spares-mark_backup_failed : (n : ℕ) → Spares P (mark_backup_failed n)
  unfolding mark_backup_failed
  Spares-mark_backup_failed n = Spares-statement _ (λ w. refl)

  pub Spares-set_quota : (id : Text) (q : Quota) → Spares P (set_quota id q)
  unfolding set_quota upsert_quota
  Spares-set_quota id q = Spares-statement (upsert_quota id q) (λ w. ground arith)

  pub Spares-get_quota : (id : Text) → Spares P (get_quota id)
  unfolding get_quota
  Spares-get_quota id = Spares-statement _ (λ w. refl)

pub ruleset spare_rules = (
  Spares-pure, Spares-raise, Spares-external, Spares-if, Spares-bind, Spares-or_else,
  Spares-ignoring, Spares-create_tenant, Spares-get_tenant, Spares-update_tenant_status_from,
  Spares-write_event, Spares-create_backup, Spares-get_backup, Spares-list_backups,
  Spares-mark_backup_completed, Spares-mark_backup_failed, Spares-set_quota, Spares-get_quota,
)
