-- ===== src/Cloud/Journal.antt =====
-- What a run asks of the database provider, and how the provider answers: a provider of
-- internal/cloud/provider.go with a journal, whatever the provider is and does.
use tenantflow.Prelude.{Text, ⊤, Bool, true, false, List, [], ◌∷◌}
use tenantflow.Model.{DatabaseState}
use tenantflow.World.{Result, ok, err}
use tenantflow.Cloud.Names.{tenant_database_name}
use tenantflow.Cloud.Provider.{CloudProvider}

-- A request by the names of databases and files, with whether it succeeded.
pub data Entry : Type 0 where
  created dropped validated : Text → Bool → Entry
  -- the database, then the file
  restored : Text → Text → Bool → Entry
  -- from, then to
  renamed : Text → Text → Bool → Entry
  -- a dump that succeeded, into the file
  dumped : Text → Text → Entry
  -- whether the answer said that the database is there
  inspected : Text → Bool → Entry
  -- what touches no database's data, and what failed without touching any
  aside : Entry

-- The provider's state, and the journal, its newest entry first.
abbrev pub Journalled : Type 0 → Type 0
Journalled S = S × List Entry

-- Each entry is allowed behind the older ones.
abbrev pub IsGuarded : (Entry → List Entry → Type 0) → List Entry → Type 0
IsGuarded Allowed [] = ⊤
IsGuarded Allowed (e ∷ older) = Allowed e older × IsGuarded Allowed older

abbrev pub is_ok : {A : Type 0} → Result A → Bool
is_ok (ok a) = true
is_ok (err e) = false

abbrev pub dump_entry : Text → Result Text → Entry
dump_entry db (ok file) = dumped db file
dump_entry db (err e) = aside

abbrev pub inspect_entry : Text → Result DatabaseState → Entry
inspect_entry db (ok d) = inspected db d.exists
inspect_entry db (err e) = aside

module _ {S A : Type 0} where
  abbrev pub noting :
      (Result A → Entry) → (S → Result A × S) → Journalled S → Result A × Journalled S
  noting entry method s = let out = method s.0 in (out.0, (out.1, entry out.0 ∷ s.1))

-- The provider with its journal.
abbrev pub journalled : {S : Type 0} → CloudProvider S → CloudProvider (Journalled S)
journalled p = record {
  create_database =
      λ id. noting (λ r. created (tenant_database_name id) (is_ok r)) (p.create_database id);
  drop_database =
      λ id. noting (λ r. dropped (tenant_database_name id) (is_ok r)) (p.drop_database id);
  drop_tenant_role = λ id. noting (λ r. aside) (p.drop_tenant_role id);
  create_database_named = λ n. noting (λ r. created n (is_ok r)) (p.create_database_named n);
  drop_database_named = λ n. noting (λ r. dropped n (is_ok r)) (p.drop_database_named n);
  snapshot_database = λ id. noting (dump_entry (tenant_database_name id)) (p.snapshot_database id);
  restore_database_from_backup =
      λ n f. noting (λ r. restored n f (is_ok r)) (p.restore_database_from_backup n f);
  validate_database = λ n. noting (λ r. validated n (is_ok r)) (p.validate_database n);
  rename_database = λ a b. noting (λ r. renamed a b (is_ok r)) (p.rename_database a b);
  inspect_database = λ n. noting (inspect_entry n) (p.inspect_database n);
  role_exists = λ n. noting (λ r. aside) (p.role_exists n);
  ensure_database_ownership = λ n. noting (λ r. aside) (p.ensure_database_ownership n);
}
