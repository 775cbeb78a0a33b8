-- ===== src/Cloud/Docker/Owned.antt =====
-- What the abstract server makes of the statements that internal/cloud/docker.go sends together: the
-- three for the owner of a database, and the queries that inspect one.
use tenantflow.Prelude.{
  Text, ⊤, Bool, true, false, ◌≡◌, refl, arith, [], ◌∷◌, text_eq, text_eq_refl, Option-cases, inl,
  inr, is_some, List, if◌then◌else◌,
}
use tenantflow.World.{ok, err, other}
use tenantflow.Strings.{trim_space, trim_left, trim_right, to_lower, trim_space-line}
use tenantflow.Model.{DatabaseState}
use tenantflow.Call.{Call, return, ◌>>=◌, ◌>>◌}
use tenantflow.Cloud.Names.{role_of}
use tenantflow.Cloud.Docker.Client.{parse_bool_out}
use tenantflow.Cloud.Docker.Server
use tenantflow.Cloud.Docker.Server.{Cluster, DatabaseRow, perform, find_row, change_row, has_role}
use tenantflow.Cloud.Docker.Promised
use tenantflow.Cloud.Docker.Simulation.{executed, queried}

pub parse_bool_out-bool_line : (b : Bool) → parse_bool_out (trim_space (Server.bool_line b)) ≡ b
unfolding parse_bool_out trim_space trim_left trim_right to_lower text_eq
parse_bool_out-bool_line true = refl
parse_bool_out-bool_line false = refl

-- What the server makes of the three ownership statements.
unfoldable pub owned : Text → Call Cluster ⊤
owned db =
    executed (Server.ensure_role (role_of db))
    >> (executed (Server.alter_owner db (role_of db))
        >> (executed (Server.revoke_connect db) >> return tt))

pub has_role-added :
    (r : Text) (rs : List Text) → has_role r (if has_role r rs then rs else r ∷ rs) ≡ true
unfolding has_role
has_role-added r rs = ground (arith, text_eq_refl r)

-- Two changes of a row that keep its name are one.
change_row-twice :
    (n : Text) (f g : DatabaseRow → DatabaseRow) (ds : List DatabaseRow)
    → ((d : DatabaseRow) → (f d).name ≡ d.name)
    → change_row n g (change_row n f ds) ≡ change_row n (λ d. g (f d)) ds
unfolding change_row
change_row-twice n f g [] keeps = refl
change_row-twice n f g (d ∷ ds) keeps = ground (arith, keeps d, change_row-twice n f g ds keeps)

find_row-change_row :
    (n : Text) (f : DatabaseRow → DatabaseRow) (ds : List DatabaseRow)
    → ((d : DatabaseRow) → (f d).name ≡ d.name)
    → is_some (find_row n (change_row n f ds)) ≡ is_some (find_row n ds)
unfolding find_row change_row
find_row-change_row n f [] keeps = refl
find_row-change_row n f (d ∷ ds) keeps = ground (arith, keeps d, find_row-change_row n f ds keeps)

abbrev owned_by : Text → DatabaseRow → DatabaseRow
owned_by r d = record d { owner = r }

pub owned_there :
    (db : Text) (c : Cluster)
    → Server.has_database db c ≡ true
    → owned db c ≡ (
      ok tt,
      Server.with_row db (Promised.isolated (role_of db)) (Server.with_role (role_of db) c),
    )
unfolding owned perform
owned_there db c h = ground (
  arith,
  h,
  has_role-added (role_of db) c.roles,
  find_row-change_row db (owned_by (role_of db)) c.databases (λ d. refl),
  change_row-twice db (owned_by (role_of db)) (λ d. record d { open_to_public = false }) c.databases
      (λ d. refl),
)

pub owned_missing :
    (db : Text) (c : Cluster)
    → Server.has_database db c ≡ false
    → owned db c ≡ (err other, Server.with_role (role_of db) c)
unfolding owned perform
owned_missing db c h = ground (arith, h)

abbrev pub with_fresh : Text → Cluster → Cluster
with_fresh db c = record c { databases = Promised.fresh_row db ∷ c.databases }

has_fresh : (db : Text) (c : Cluster) → Server.has_database db (with_fresh db c) ≡ true
unfolding find_row
has_fresh db c = ground (arith, text_eq_refl db)

pub owned_fresh :
    (db : Text) (c : Cluster)
    → owned db (with_fresh db c) ≡ (
      ok tt,
      record (Server.with_role (role_of db) c) {
        databases = Promised.isolated (role_of db) (Promised.fresh_row db) ∷ c.databases;
      },
    )
unfolding change_row
owned_fresh db c =
    ground (arith, owned_there db (with_fresh db c) (has_fresh db c), text_eq_refl db)

-- InspectDatabase on the server after the first query.
unfoldable pub inspected : Text → Bool → Call Cluster DatabaseState
inspected db false = return (record { exists = false; owner_role = []; public_connect = false })
inspected db true = queried (Server.owner_of db) >>= λ owner.
    queried (Server.public_connect db) >>= λ out.
    return (record { exists = true; owner_role = owner; public_connect = parse_bool_out out })

pub inspected-same :
    (db : Text) (c : Cluster)
    → inspected db (Server.has_database db c) c
      ≡ (ok (Promised.state_of_row (find_row db c.databases)), c)
unfolding inspected perform
inspected-same db c = elim (Option-cases (find_row db c.databases)) [
  | inl h ↦ cc h
  | inr (d, h) ↦
      ground (arith, h, parse_bool_out-bool_line d.open_to_public, trim_space-line d.owner)
]
