-- ===== src/Cloud/Docker/Client.antt =====
-- How internal/cloud/docker.go runs a command in the postgres container. The calls of the Docker
-- client are parameters: `S` is the state of the Docker host.
use tenantflow.Prelude.{
  ℕ, Text, ⊤, Bool, false, ◌||◌, List, [], ◌∷◌, Option, none, some, codes, text_eq, ◌==◌,
  if◌then◌else◌,
}
use tenantflow.World.{other}
use tenantflow.Call.{Call, return, fail, ◌>>=◌, ◌>>◌}
use tenantflow.Strings.{contains_text, trim_byte, trim_space, to_lower}

-- container.Summary, as far as it is read.
pub record Container : Type 0 where
  pub id : Text
  pub names : List Text

-- What stdcopy.StdCopy splits the stream of a command into, and the command's exit code.
pub record Ended : Type 0 where
  pub stdout : Text
  pub exit_code : ℕ

pub record Docker (S : Type 0) : Type 0 where
  -- ContainerList of the running containers
  pub container_list : Call S (List Container)
  -- ContainerExecCreate of a command in a container: the exec's id
  pub exec_create : Text → List Text → Call S Text
  -- ContainerExecStart, which does not wait for the command's output
  pub exec_start : Text → Call S ⊤
  -- ContainerExecAttach and StdCopy: what the command has printed, to its end
  pub exec_attach : Text → Call S Text
  -- the exit code of ContainerExecInspect
  pub exec_inspect : Text → Call S ℕ
  -- time.Now().Format("20060102-150405")
  pub now_stamp : S → Text

-- postgresContainerName
abbrev pub postgres_container_name : Text
postgres_container_name = codes "tenantflow-postgres"

unfoldable pub any_name : (Text → Bool) → List Text → Bool
any_name p [] = false
any_name p (n ∷ ns) = p n || any_name p ns

-- The first container with a name that `p` takes.
unfoldable pub first_container : (Text → Bool) → List Container → Option Text
unfolding any_name
first_container p [] = none
first_container p (c ∷ cs) = if any_name p c.names then some c.id else first_container p cs

abbrev pub is_canonical : Text → Bool
is_canonical n = text_eq (trim_byte b'/' n) postgres_container_name

abbrev pub is_postgres : Text → Bool
is_postgres n = contains_text n (codes "postgres")

-- The two loops of findPostgresContainer: the canonical name anywhere comes before any other name.
unfoldable pub choose_container : List Container → Option Text
unfolding first_container
choose_container cs = elim (first_container is_canonical cs) [
  | some id ↦ some id
  | none ↦ first_container is_postgres cs
]

abbrev pub or_fail : {S A : Type 0} → Option A → Call S A
or_fail none = fail other
or_fail (some a) = return a

-- `if inspect.ExitCode != 0`
abbrev pub exit_zero : {S A : Type 0} → A → ℕ → Call S A
exit_zero a code = if code == 0 then return a else fail other

-- parseBoolOut
unfoldable pub parse_bool_out : Text → Bool
parse_bool_out out =
    let s = to_lower (trim_space out) in
    text_eq s (codes "t")
    || text_eq s (codes "true")
    || text_eq s (codes "1")
    || text_eq s (codes "yes")
    || text_eq s (codes "on")

-- The commands of execPostgres and of queryPostgres.
abbrev pub psql : Text → List Text
psql sql = codes "psql" ∷ codes "-U" ∷ codes "temporal" ∷ codes "-c" ∷ sql ∷ []

abbrev pub psql_tuples : Text → List Text
psql_tuples sql =
    codes "psql" ∷ codes "-U" ∷ codes "temporal" ∷ codes "-t" ∷ codes "-A" ∷ codes "-c" ∷ sql ∷ []

module _ {S : Type 0} (docker : Docker S) where
  open docker use {container_list, exec_create, exec_start, exec_attach, exec_inspect}

  unfoldable pub find_postgres_container : Call S Text
  unfolding choose_container
  find_postgres_container = container_list >>= λ cs. or_fail (choose_container cs)

  unfoldable pub exec_shell : Text → Call S ⊤
  unfolding find_postgres_container
  exec_shell script = do
    postgres_id ← find_postgres_container
    exec_id ← exec_create postgres_id (codes "bash" ∷ codes "-lc" ∷ script ∷ [])
    exec_start exec_id
    code ← exec_inspect exec_id
    exit_zero tt code

  -- ContainerExecAttach, StdCopy and ContainerExecInspect of a command, which execPostgres and
  -- queryPostgres share.
  unfoldable pub run_attached : Text → List Text → Call S Ended
  run_attached postgres_id cmd = do
    exec_id ← exec_create postgres_id cmd
    out ← exec_attach exec_id
    code ← exec_inspect exec_id
    return record { stdout = out; exit_code = code }

  unfoldable pub exec_postgres : Text → Call S ⊤
  unfolding find_postgres_container run_attached
  exec_postgres sql = do
    postgres_id ← find_postgres_container
    ended ← run_attached postgres_id (psql sql)
    exit_zero tt ended.exit_code

  unfoldable pub query_postgres : Text → Call S Text
  unfolding find_postgres_container run_attached
  query_postgres sql = do
    postgres_id ← find_postgres_container
    ended ← run_attached postgres_id (psql_tuples sql)
    exit_zero (trim_space ended.stdout) ended.exit_code
