-- ===== src/World.antt =====
-- The state that the activities work on, errors as values, and the monad of a call that changes the
-- state and may fail.
-- The control-plane database (internal/database/migrations) is a record of tables; what stands
-- behind the provider interfaces (Docker, Keycloak) is a state of a type `S` that the model does
-- not look into.
mod Tables
unfoldable pub use Tables.{find_tenant, put_tenant, find_quota, put_quota}
pub use Tables.{
  find_tenant-put_tenant, find_quota-put_quota, tenant_id_of_found, found_at_own_id, HasUniqueIds,
  put_tenant-HasUniqueIds,
}
use tenantflow.Prelude.{ℕ, Text, ⊤, List, [], ◌∷◌, Option, none, some}
use tenantflow.Model.{Tenant, Backup, Quota, AuditEvent}

-- The Type of a temporal.ApplicationError.
pub data AppType : Type 0 where
  status_conflict tenant_not_found no_verified_backup : AppType
  reconcile_unrecoverable reconcile_unconverged invalid_sweep_interval : AppType

-- An error, as far as code tells errors apart (errors.Is, errors.As). Wrapping by `%w` keeps an
-- error's identity, so it is not modelled; messages are not modelled.
pub data Error : Type 0 where
  -- repository.ErrNotFound, repository.ErrStatusConflict
  not_found conflict : Error
  -- temporal.NewNonRetryableApplicationError, temporal.NewApplicationError
  non_retryable application : AppType → Error
  -- any other error: a driver's, a provider's, a failed check
  other : Error
  -- errors.Join of two errors
  joined : Error → Error → Error

pub data Result {ℓ} (A : Type ℓ) : Type ℓ where
  ok : A → Result A
  err : Error → Result A

-- How the database answers one statement: it runs; it fails and has no effect; or it takes effect
-- and its answer is lost, so that the caller sees an error.
pub data Outcome : Type 0 where
  done refused lost : Outcome

-- One answer, with the server's clock at the statement: `now()`.
pub record Answer : Type 0 where
  pub outcome : Outcome
  pub clock : ℕ

-- The tables tenants, audit_events, backups and tenant_quotas, the clock of the last statement, and
-- the answers that the database is going to give: past their end every statement is done.
pub record World (S : Type 0) : Type 0 where
  pub tenants : List Tenant
  pub audit : List AuditEvent
  pub backups : List Backup
  pub next_backup_id : ℕ
  pub quotas : List (Text × Quota)
  pub now : ℕ
  pub answers : List Answer
  pub ext : S

-- A call with the world's state: Go's `(T, error)`, and what was written stays written.
abbrev pub Act : Type 0 → Type 0 → Type 0
Act S A = World S → Result A × World S

module _ {S A : Type 0} where
  abbrev pub pure : A → Act S A
  pure a w = (ok a, w)

  abbrev pub raise : Error → Act S A
  raise e w = (err e, w)

infixl 5 ◌>>=◌ ◌>>◌
abbrev pub ◌>>=◌ : {S A B : Type 0} → Act S A → (A → Act S B) → Act S B
◌>>=◌ m f w = let (r, w') = m w in elim r [ ok a ↦ f a w' | err e ↦ (err e, w') ]

abbrev pub ◌>>◌ : {S B : Type 0} → Act S ⊤ → Act S B → Act S B
m >> k = m >>= λ _. k

-- `if err := m; err != nil { return handle(err) }`
abbrev pub or_else : {S A : Type 0} → Act S A → (Error → Act S A) → Act S A
or_else m handle w = let (r, w') = m w in elim r [ ok a ↦ (ok a, w') | err e ↦ handle e w' ]

-- `_ = m` and a cleanup whose error is only logged.
abbrev pub ignoring : {S : Type 0} → Act S ⊤ → Act S ⊤
ignoring m w = (ok tt, (m w).1)

-- `if err := m; err != nil { cleanup; return err }`, the cleanup's own error being logged only.
abbrev pub with_cleanup : {S : Type 0} → Act S ⊤ → Act S ⊤ → Act S ⊤
with_cleanup m cleanup = or_else m (λ e. ignoring cleanup >> raise e)

-- A call of a provider, whose state is the world's `ext`.
abbrev pub external : {S A : Type 0} → (S → Result A × S) → Act S A
external f w = let (r, s) = f w.ext in (r, record w { ext = s })

abbrev pub advance : {S : Type 0} → World S → List Answer → ℕ → World S
advance w rest t = record w { answers = rest; now = t }

abbrev pub by_outcome : {S A : Type 0} → Outcome → Act S A → Act S A
by_outcome done f w = f w
by_outcome refused f w = (err other, w)
by_outcome lost f w = (err other, (f w).1)

abbrev pub answered : {S A : Type 0} → List Answer → Act S A → Act S A
answered [] f w = f w
answered (a ∷ rest) f w = by_outcome a.outcome f (advance w rest a.clock)

-- One statement to the database. `f` is the statement's own effect, which may be an error of the
-- statement (a constraint, no rows); the pool's answer decides whether it runs and is heard of.
unfoldable pub statement : {S A : Type 0} → Act S A → Act S A
statement f w = answered w.answers f w

-- `Scan` of a row that may be missing.
abbrev pub or_not_found : {S A : Type 0} → Option A → Act S A
or_not_found none = raise not_found
or_not_found (some a) = pure a
