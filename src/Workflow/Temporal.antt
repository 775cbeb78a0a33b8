-- ===== src/Workflow/Temporal.antt =====
-- The Temporal SDK as the workflows use it: `ExecuteActivity(...).Get(...)`, with the retry policy of
-- the activity options. It is a parameter: what an execution of an activity does to the world, with
-- its retries, lost results, timeouts and what other workflows do meanwhile, is `execute`.
use tenantflow.Prelude.{⊤, ◌≡◌}
use tenantflow.World.{World, ok, Act, Error, joined, ◌>>=◌, pure, or_else}

pub record Temporal (S : Type 0) : Type 1 where
  pub execute : (A : Type 0) → Act S A → Act S A

-- What is documented of an execution: the activity runs any number of times, one run after another,
-- with steps of others (`rely`) before, between and behind them; a result is that of a run.
pub record TemporalLaws (S : Type 0) (rely : World S → World S → Type 0) (t : Temporal S)
    : Type 1 where
  -- A property that the activity keeps, and others keep, is kept, whatever the answer.
  pub keeps :
      (A : Type 0) (m : Act S A) (P : World S → Type 0)
      → ((w w' : World S) → rely w w' → P w → P w')
      → ((w : World S) → P w → P (m w).1)
      → (w : World S) → P w
      → P (t.execute A m w).1
  -- What holds whenever a run from such a state answers, and others keep, holds of the answer.
  pub returns :
      (A : Type 0) (m : Act S A) (P : World S → Type 0) (Q : A → World S → Type 0)
      → ((w w' : World S) → rely w w' → P w → P w')
      → ((a : A) (w w' : World S) → rely w w' → Q a w → Q a w')
      → ((w : World S) → P w → P (m w).1)
      → ((w : World S) (a : A) → P w → (m w).0 ≡ ok a → Q a (m w).1)
      → (w : World S) (a : A) → P w
      → (t.execute A m w).0 ≡ ok a
      → Q a (t.execute A m w).1

-- An execution that nothing disturbs: if the activity's run succeeds, that is all that happens.
pub record Undisturbed (S : Type 0) (t : Temporal S) : Type 1 where
  pub first_run :
      (A : Type 0) (m : Act S A) (w : World S) (a : A) → (m w).0 ≡ ok a → t.execute A m w ≡ m w

-- `joinErr := m; err = errors.Join(err, joinErr)`: the error so far, with that of `m` if it has one.
abbrev pub joining : {S : Type 0} → Act S ⊤ → Error → Act S Error
joining m e = or_else (m >>= λ _. pure e) (λ f. pure (joined e f))
