-- ===== src/Cloud/Docker/Repairs.antt =====
-- EnsureDatabaseOwnership of internal/cloud/docker.go and the probes of
-- internal/activities/reconcile.go: after the repair no drift of the database is left.
use tenantflow.Prelude.{
  Text, ⊤, Bool, true, false, ◌≡◌, refl, List, [], ◌∷◌, Option-cases, inl, inr, some, arith,
  text_eq_refl, if◌then◌else◌,
}
use tenantflow.Model.{DatabaseState}
use tenantflow.World.{ok}
use tenantflow.Call.{Call, return, ◌>>=◌}
use tenantflow.Strings.{trim_left, trim_right, trim_space}
use tenantflow.Cloud.Names.{is_id_char, all_chars, safe_id, role_of}
use tenantflow.Cloud.Docker.Client.{Docker}
use tenantflow.Cloud.Docker.Operations.{
  create_database_named, ensure_database_ownership, inspect_database, role_exists,
}
use tenantflow.Cloud.Docker.Server.{Cluster, DatabaseRow, find_row, change_row, has_role}
use tenantflow.Cloud.Docker.Promised
use tenantflow.Cloud.Docker.Spec.{Simulates, RunsPostgres}
use tenantflow.Cloud.Docker.Simulation.{Simulates-bind, Simulates-if, Simulates-return}
use tenantflow.Cloud.Docker.Owned.{has_role-added}
use tenantflow.Cloud.Docker.Refines.{
  Simulates-create_database_named, Simulates-ensure_database_ownership, Simulates-inspect_database,
  Simulates-role_exists,
}

trim_right-id_chars : (s : Text) → all_chars is_id_char s ≡ true → trim_right s ≡ s
unfolding trim_right all_chars is_id_char
trim_right-id_chars [] h = refl
trim_right-id_chars (c ∷ s) h = ground (arith, trim_right-id_chars s)

trim_left-id_chars : (s : Text) → all_chars is_id_char s ≡ true → trim_left s ≡ s
unfolding trim_left all_chars is_id_char
trim_left-id_chars [] h = refl
trim_left-id_chars (c ∷ s) h = ground arith

trim_space-safe_id : (s : Text) → safe_id s ≡ true → trim_space s ≡ s
unfolding trim_space
trim_space-safe_id s h = ground (arith, trim_right-id_chars s, trim_left-id_chars s)

find_row-changed :
    (n : Text) (f : DatabaseRow → DatabaseRow) (ds : List DatabaseRow) (d : DatabaseRow)
    → ((e : DatabaseRow) → (f e).name ≡ e.name)
    → find_row n ds ≡ some d
    → find_row n (change_row n f ds) ≡ some (f d)
unfolding find_row change_row
find_row-changed n f [] d keeps h = absurd (cc h)
find_row-changed n f (e ∷ ds) d keeps h = ground (arith, keeps e, find_row-changed n f ds d keeps)

-- The calls of ProbeTenantActualState to the provider, and those of EnsureTenantDatabase.
abbrev pub postured :
    {S : Type 0}
    → (Text → Call S DatabaseState)
    → (Text → Call S Bool)
    → Text
    → Call S (DatabaseState × Bool)
postured inspect exists db = inspect db >>= λ state. exists db >>= λ role. return (state, role)

abbrev pub ensured :
    {S : Type 0}
    → (Text → Call S DatabaseState)
    → (Text → Call S ⊤)
    → (Text → Call S ⊤)
    → Text
    → Call S ⊤
ensured inspect ensure create db =
    inspect db >>= λ state. if state.exists then ensure db else create db

abbrev pub healthy : Text → DatabaseState × Bool
healthy db = (record { exists = true; owner_role = db; public_connect = false }, true)

-- As promised, on the abstract server.
pub promised_ensured : Text → Call Cluster ⊤
promised_ensured =
    ensured Promised.inspect_database Promised.ensure_database_ownership
      Promised.create_database_named

pub promised_postured : Text → Call Cluster (DatabaseState × Bool)
promised_postured = postured Promised.inspect_database Promised.role_exists

abbrev pub OwnsItself : Text → Type 0
OwnsItself db = (safe_id db ≡ true) × (role_of db ≡ db)

-- The database is isolated under its own role.
abbrev pub IsIsolated : Text → Cluster → Type 0
IsIsolated db c =
    (d : DatabaseRow) × (find_row db c.databases ≡ some (Promised.isolated db d))
    × (has_role db c.roles ≡ true)

pub promised_ensured-lem :
    (db : Text) (c : Cluster)
    → OwnsItself db
    → ((promised_ensured db c).0 ≡ ok tt) × IsIsolated db (promised_ensured db c).1
unfolding promised_ensured Promised.ensure_database_ownership Promised.inspect_database
    Promised.create_database_named find_row
promised_ensured-lem db c h = elim (Option-cases (find_row db c.databases)) [
  | inl none_there ↦ (
    ground (arith, none_there, h.0, h.1),
    (
      Promised.fresh_row db,
      ground (arith, none_there, h.0, h.1, text_eq_refl db),
      ground (arith, none_there, h.0, h.1, has_role-added db c.roles),
    ),
  )
  | inr (d, found) ↦ (
    ground (arith, found, h.0, h.1),
    (
      d,
      ground (
        arith,
        found,
        h.0,
        h.1,
        find_row-changed db (Promised.isolated db) c.databases d (λ e. refl) found,
      ),
      ground (arith, found, h.0, h.1, has_role-added db c.roles),
    ),
  )
]

pub promised_postured-lem :
    (db : Text) (c : Cluster)
    → OwnsItself db
    → IsIsolated db c
    → (promised_postured db c).0 ≡ ok (healthy db)
unfolding promised_postured Promised.inspect_database Promised.role_exists
promised_postured-lem db c h (d, found, role) =
    ground (arith, h.0, found, role, trim_space-safe_id db h.0)

module _ {S : Type 0} {docker : Docker S} {view : S → Cluster}
    (host : RunsPostgres docker view) where
  pub Simulates-ensured :
      (db : Text)
      → Simulates view
          (ensured
            (inspect_database docker)
            (ensure_database_ownership docker)
            (create_database_named docker)
            db)
          (promised_ensured db)
  unfolding promised_ensured
  Simulates-ensured db = Simulates-bind (Simulates-inspect_database host db) λ state.
      Simulates-if state.exists (Simulates-ensure_database_ownership host db)
        (Simulates-create_database_named host db)

  pub Simulates-postured :
      (db : Text)
      → Simulates view
          (postured (inspect_database docker) (role_exists docker) db)
          (promised_postured db)
  unfolding promised_postured
  Simulates-postured db =
      Simulates-bind (Simulates-inspect_database host db) λ state.
        Simulates-bind (Simulates-role_exists host db) λ role. Simulates-return (state, role)
