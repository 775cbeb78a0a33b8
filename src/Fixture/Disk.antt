-- ===== src/Fixture/Disk.antt =====
-- A server that keeps what databases and dump files hold, whose methods touch what Cloud/Contents
-- says.
use tenantflow.Prelude.{
  Text, ⊤, true, false, ◌≡◌, ◌≢◌, refl, [], Option, none, some, is_some, arith, text_eq,
  text_eq_iff, if◌then◌else◌,
}
use tenantflow.World.{Result, ok, err, other}
use tenantflow.Cloud.Names.{tenant_database_name, role_of, backup_name}
use tenantflow.Cloud.Provider.{CloudProvider, IdentityProvider}
use tenantflow.Cloud.Contents.{Contents, Frames, IdentityFrames}

pub record Disk : Type 0 where
  pub databases : Text → Option Text
  pub files : Text → Option Text
  -- the time that the next dump's name has
  pub stamp : Text

abbrev pub put : Text → Option Text → (Text → Option Text) → Text → Option Text
put n o m k = if text_eq n k then o else m k

abbrev pub with_database : Text → Option Text → Disk → Disk
with_database n o s = record s { databases = put n o s.databases }

abbrev pub ensure : Text → Disk → Result ⊤ × Disk
ensure n s = (ok tt, if is_some (s.databases n) then s else with_database n (some []) s)

abbrev pub gone : Text → Disk → Result ⊤ × Disk
gone n s = (ok tt, with_database n none s)

-- An existing file is not overwritten.
abbrev pub dump : Text → Disk → Result Text × Disk
dump id s =
    let f = backup_name id s.stamp in
    if is_some (s.files f) then (err other, s) else elim (s.databases (tenant_database_name id)) [
      | none ↦ (err other, s)
      | some c ↦ (ok f, record s { files = put f (some c) s.files })
    ]

abbrev pub load : Text → Text → Disk → Result ⊤ × Disk
load n f s = elim (s.files f) [
  | none ↦ (err other, s)
  | some c ↦ if is_some (s.databases n) then (ok tt, with_database n (some c) s) else (err other, s)
]

-- To the name of a database that is there nothing is renamed.
abbrev pub rename : Text → Text → Disk → Result ⊤ × Disk
rename from to s = elim (s.databases from) [
  | none ↦ (err other, s)
  | some c ↦
      if is_some (s.databases to)
      then (err other, s)
      else (ok tt, with_database from none (with_database to (some c) s))
]

abbrev pub disk_cloud : CloudProvider Disk
disk_cloud = record {
  create_database = λ id s. ensure (tenant_database_name id) s;
  drop_database = λ id s. gone (tenant_database_name id) s;
  drop_tenant_role = λ id s. (ok tt, s);
  create_database_named = ensure;
  drop_database_named = gone;
  snapshot_database = dump;
  restore_database_from_backup = load;
  validate_database = λ n s. (if is_some (s.databases n) then ok tt else err other, s);
  rename_database = rename;
  inspect_database = λ n s. (
    ok (record {
      exists = is_some (s.databases n);
      owner_role = role_of n;
      public_connect = false;
    }),
    s,
  );
  role_exists = λ n s. (ok true, s);
  ensure_database_ownership = λ n s. (ok tt, s);
}

abbrev pub disk_contents : Contents Disk
disk_contents = record { database = λ s n. s.databases n }

put_other : (n k : Text) (o : Option Text) (m : Text → Option Text) → k ≢ n → put n o m k ≡ m k
put_other n k o m ne = ground (arith, text_eq_iff n k)

ensure_frame : (n : Text) (s : Disk) (m : Text) → m ≢ n → (ensure n s).1.databases m ≡ s.databases m
ensure_frame n s m ne = ground (arith, text_eq_iff n m)

load_frame : (n g : Text) (s : Disk) (m : Text) → m ≢ n → (load n g s).1.databases m ≡ s.databases m
load_frame n g s m ne = ground (arith, text_eq_iff n m)

dump_reads : (id : Text) (s : Disk) (m : Text) → (dump id s).1.databases m ≡ s.databases m
dump_reads id s m = ground arith

rename_frame :
    (from to : Text) (s : Disk) (m : Text)
    → m ≢ from
    → m ≢ to
    → (rename from to s).1.databases m ≡ s.databases m
rename_frame from to s m a b = ground (arith, text_eq_iff from m, text_eq_iff to m)

pub disk-Frames : Frames disk_cloud disk_contents
disk-Frames = record {
  created = λ id s m ne. ensure_frame _ s m ne;
  dropped = λ id s m ne. put_other _ m none s.databases ne;
  role_dropped = λ id s m. refl;
  created_named = λ n s m ne. ensure_frame n s m ne;
  dropped_named = λ n s m ne. put_other n m none s.databases ne;
  restored = λ n g s m ne. load_frame n g s m ne;
  validated = λ n s m. refl;
  inspected = λ n s m. refl;
  role_checked = λ n s m. refl;
  owned = λ n s m. refl;
  dumped = dump_reads;
  renamed_others = rename_frame;
}

-- An identity provider that finds every user.
abbrev pub disk_identity : IdentityProvider Disk
disk_identity = record {
  get_user_by_username = λ n s. (ok (some n), s);
  create_user = λ n email password first last s. (ok n, s);
  assign_role = λ user role s. (ok tt, s);
  delete_user = λ user s. (ok tt, s);
}

pub disk-IdentityFrames : IdentityFrames disk_identity disk_contents
disk-IdentityFrames = record {
  found = λ n s m. refl;
  user_created = λ n email password first last s m. refl;
  role_given = λ user role s m. refl;
  user_deleted = λ user s m. refl;
}
