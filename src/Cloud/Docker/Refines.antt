-- ===== src/Cloud/Docker/Refines.antt =====
-- The methods of internal/cloud/docker.go keep the promises of Cloud/Docker/Promised on a host that
-- runs the postgres container.
use tenantflow.Prelude.{
  Text, Bool, true, false, ◌≡◌, refl, arith, List, [], ◌∷◌, Bool-cases, inl, inr, if◌then◌else◌,
}
use tenantflow.World.{other}
use tenantflow.Call.{fail}
use tenantflow.Cloud.Names.{safe_id, role_of, tenant_owner_role, tenant_database_name}
use tenantflow.Cloud.Docker.Client.{Docker, parse_bool_out}
use tenantflow.Cloud.Docker.Sql.{
  ownership_statements, ensure_role_sql, alter_owner_sql, revoke_connect_sql,
}
use tenantflow.Cloud.Docker.Operations.{
  exec_all, apply_database_ownership, ensure_database_ownership, create_database_named,
  drop_database_named, drop_tenant_role, rename_database, inspect_database, role_exists,
  inspect_existing,
}
use tenantflow.Cloud.Docker.Server
use tenantflow.Cloud.Docker.Server.{
  Cluster, DatabaseRow, perform, find_row, change_row, has_role, is_connected, disconnect,
}
use tenantflow.Cloud.Docker.Spec.{Simulates, RunsPostgres}
use tenantflow.Cloud.Docker.Promised
use tenantflow.Cloud.Docker.Simulation.{
  Simulates-return, Simulates-bind, Simulates-same, Simulates-exec, Simulates-query,
  Simulates-dropping, Simulates-checked, Simulates-lift, Simulates-lift_err,
}
use tenantflow.Cloud.Docker.Owned.{
  parse_bool_out-bool_line, owned, owned_there, owned_missing, owned_fresh, inspected,
  inspected-same,
}

module _ {S : Type 0} {docker : Docker S} {view : S → Cluster}
    (host : RunsPostgres docker view) where
  is_connected-disconnect :
      (db : Text) (ss : List Text) → is_connected db (disconnect db ss) ≡ false
  unfolding is_connected disconnect
  is_connected-disconnect db [] = refl
  is_connected-disconnect db (s ∷ ss) = ground (arith, is_connected-disconnect db ss)

  pub Simulates-drop_database_named :
      (db : Text) → Simulates view (drop_database_named docker db) (Promised.drop_database_named db)
  unfolding drop_database_named Promised.drop_database_named perform
  Simulates-drop_database_named db = Simulates-checked (safe_id db) λ safe.
      Simulates-same
        (Simulates-bind (Simulates-dropping (Simulates-exec host (Server.terminate db) safe))
          (λ _. Simulates-exec host (Server.drop_database db) safe))
        (λ c. ground (arith, is_connected-disconnect db c.sessions))

  pub Simulates-drop_tenant_role :
      (id : Text)
      → safe_id (tenant_database_name id) ≡ true
      → Simulates view (drop_tenant_role docker id) (Promised.drop_tenant_role id)
  unfolding drop_tenant_role Promised.drop_tenant_role perform
  Simulates-drop_tenant_role id valid =
      Simulates-same
        (Simulates-checked (safe_id id)
          λ _. Simulates-exec host (Server.drop_role (tenant_database_name id)) valid)
        (λ c. ground arith)

  pub Simulates-rename_database :
      (old new : Text)
      → Simulates view (rename_database docker old new) (Promised.rename_database old new)
  unfolding rename_database Promised.rename_database perform
  Simulates-rename_database old new =
      Simulates-same
        (Simulates-checked (safe_id old) λ h.
          Simulates-checked (safe_id new)
            λ k. Simulates-exec host (Server.rename_database old new) (h, k))
        (λ c. ground arith)

  pub Simulates-role_exists :
      (role : Text) → Simulates view (role_exists docker role) (Promised.role_exists role)
  unfolding role_exists Promised.role_exists perform
  Simulates-role_exists role = Simulates-checked (safe_id role) λ h.
      Simulates-same
        (Simulates-bind (Simulates-query host (Server.role_exists role) h)
          (λ out. Simulates-return (parse_bool_out out)))
        (λ c. cc (parse_bool_out-bool_line (has_role role c.roles)))

  Simulates-inspect_existing :
      (db : Text) (b : Bool)
      → safe_id db ≡ true
      → Simulates view (inspect_existing docker db b) (inspected db b)
  unfolding inspect_existing inspected
  Simulates-inspect_existing db false h = Simulates-return _
  Simulates-inspect_existing db true h =
      Simulates-bind (Simulates-query host (Server.owner_of db) h) λ owner.
        Simulates-bind (Simulates-query host (Server.public_connect db) h) λ out.
          Simulates-return
            (record { exists = true; owner_role = owner; public_connect = parse_bool_out out })

  pub Simulates-inspect_database :
      (db : Text) → Simulates view (inspect_database docker db) (Promised.inspect_database db)
  unfolding inspect_database Promised.inspect_database perform
  Simulates-inspect_database db = Simulates-checked (safe_id db) λ h.
      Simulates-same
        (Simulates-bind (Simulates-query host (Server.database_exists db) h)
          (λ out. Simulates-inspect_existing db (parse_bool_out out) h))
        (λ c. cc (parse_bool_out-bool_line (Server.has_database db c), inspected-same db c))

  Simulates-owned :
      (db : Text)
      → safe_id db ≡ true
      → safe_id (role_of db) ≡ true
      → Simulates view (apply_database_ownership docker db) (owned db)
  unfolding apply_database_ownership owned exec_all ownership_statements tenant_owner_role
  Simulates-owned db h k =
      Simulates-lift (ownership_statements db)
        (ensure_role_sql (role_of db)
          ∷ alter_owner_sql db (role_of db)
          ∷ revoke_connect_sql db
          ∷ [])
        (exec_all docker) (ground arith)
        (Simulates-bind (Simulates-exec host (Server.ensure_role (role_of db)) k) λ _.
          Simulates-bind (Simulates-exec host (Server.alter_owner db (role_of db)) (h, k)) λ _.
            Simulates-bind (Simulates-exec host (Server.revoke_connect db) h)
              λ _. Simulates-return tt)

  Simulates-no_owner :
      (db : Text)
      → safe_id db ≡ true
      → safe_id (role_of db) ≡ false
      → Simulates view (apply_database_ownership docker db) (fail other)
  unfolding apply_database_ownership ownership_statements tenant_owner_role
  Simulates-no_owner db h k =
      Simulates-lift_err (ownership_statements db) (exec_all docker) (ground arith)

  Simulates-apply :
      (db : Text)
      → safe_id db ≡ true
      → Simulates view
          (apply_database_ownership docker db)
          (if safe_id (role_of db) then owned db else fail other)
  Simulates-apply db h = elim (Bool-cases (safe_id (role_of db))) [
    | inl k ↦ rw k (Simulates-owned db h k)
    | inr k ↦ rw k (Simulates-no_owner db h k)
  ]

  pub Simulates-ensure_database_ownership :
      (db : Text)
      → Simulates view (ensure_database_ownership docker db) (Promised.ensure_database_ownership db)
  unfolding ensure_database_ownership Promised.ensure_database_ownership
  Simulates-ensure_database_ownership db =
      Simulates-same (Simulates-checked (safe_id db) (Simulates-apply db)) (λ c.
        elim (Bool-cases (Server.has_database db c)) [
          | inl e ↦ ground (arith, e, owned_there db c e)
          | inr e ↦ ground (arith, e, owned_missing db c e)
        ])

  pub Simulates-create_database_named :
      (db : Text)
      → Simulates view (create_database_named docker db) (Promised.create_database_named db)
  unfolding create_database_named Promised.create_database_named perform
  Simulates-create_database_named db =
      Simulates-same
        (Simulates-checked (safe_id db) λ h.
          Simulates-bind (Simulates-exec host (Server.create_database db) h)
            (λ _. Simulates-apply db h))
        (λ c. elim (Bool-cases (Server.has_database db c)) [
          | inl e ↦ ground (arith, e)
          | inr e ↦ ground (arith, e, owned_fresh db c)
        ])

-- On a host that runs the postgres container, each method that works by statements answers as
-- promised, an error included, and leaves the databases, roles and sessions as promised: a database
-- with open sessions is dropped, its sessions ended, and is not renamed. Of the removal of a role this
-- holds where the role's name is a valid identifier.
pub methods_keep_promises :
    {S : Type 0} {docker : Docker S} {view : S → Cluster} (host : RunsPostgres docker view)
    (db new id : Text)
    → safe_id (tenant_database_name id) ≡ true
    → Simulates view (create_database_named docker db) (Promised.create_database_named db)
      × Simulates view (drop_database_named docker db) (Promised.drop_database_named db)
      × Simulates view (drop_tenant_role docker id) (Promised.drop_tenant_role id)
      × Simulates view (rename_database docker db new) (Promised.rename_database db new)
      × Simulates view (inspect_database docker db) (Promised.inspect_database db)
      × Simulates view (role_exists docker db) (Promised.role_exists db)
      × Simulates view (ensure_database_ownership docker db) (Promised.ensure_database_ownership db)
methods_keep_promises host db new id valid = (
  Simulates-create_database_named host db,
  Simulates-drop_database_named host db,
  Simulates-drop_tenant_role host id valid,
  Simulates-rename_database host db new,
  Simulates-inspect_database host db,
  Simulates-role_exists host db,
  Simulates-ensure_database_ownership host db,
)
