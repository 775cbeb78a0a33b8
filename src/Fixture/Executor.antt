-- ===== src/Fixture/Executor.antt =====
-- An executor: up to three attempts, of which the first success or non-retryable error is the
-- answer, as `RetryPolicy{MaximumAttempts: 3}` asks. Nothing else runs meanwhile.
use tenantflow.Prelude.{ℕ, zero, suc, ◌≡◌, Bool, true, false, if◌then◌else◌, Bool-cases, inl, inr}
use tenantflow.World.{World, Act, Result, ok, err, Error, non_retryable}
use tenantflow.Workflow.Temporal.{Temporal, TemporalLaws, Undisturbed}

abbrev pub is_final : Error → Bool
is_final (non_retryable _) = true
is_final _ = false

module _ {S A : Type 0} where
  -- What follows an attempt that answered `r` and left the world `w`.
  abbrev pub settle : Result A → World S → Act S A → Result A × World S
  settle (ok a) w again = (ok a, w)
  settle (err e) w again = if is_final e then (err e, w) else again w

  abbrev pub attempts : ℕ → Act S A → Act S A
  attempts zero m w = m w
  attempts (suc n) m w = settle (m w).0 (m w).1 (attempts n m)

  settle_keeps :
      (P : World S → Type 0) (r : Result A) (w : World S) (again : Act S A)
      → ((u : World S) → P u → P (again u).1)
      → P w
      → P (settle r w again).1
  settle_keeps P (ok a) w again h p = p
  settle_keeps P (err e) w again h p = elim (Bool-cases (is_final e)) [
    | inl final ↦ rw final p
    | inr open_end ↦ rw open_end (h w p)
  ]

  attempts_keep :
      (P : World S → Type 0) (m : Act S A)
      → ((u : World S) → P u → P (m u).1)
      → (n : ℕ) (w : World S) → P w
      → P (attempts n m w).1
  attempts_keep P m h zero w p = h w p
  attempts_keep P m h (suc n) w p =
      settle_keeps P (m w).0 (m w).1 (attempts n m) (attempts_keep P m h n) (h w p)

  settle_returns :
      (P : World S → Type 0) (Q : A → World S → Type 0) (r : Result A) (w : World S)
      (again : Act S A)
      → ((a : A) → r ≡ ok a → Q a w)
      → ((u : World S) (a : A) → P u → (again u).0 ≡ ok a → Q a (again u).1)
      → P w
      → (a : A) → (settle r w again).0 ≡ ok a
      → Q a (settle r w again).1
  settle_returns P Q (ok b) w again now later p a e = now a e
  settle_returns P Q (err e) w again now later p a q = elim (Bool-cases (is_final e)) [
    | inl final ↦ absurd (cc final)
    | inr open_end ↦ rw open_end (later w a p (rw open_end at q))
  ]

  attempts_return :
      (P : World S → Type 0) (Q : A → World S → Type 0) (m : Act S A)
      → ((u : World S) → P u → P (m u).1)
      → ((u : World S) (a : A) → P u → (m u).0 ≡ ok a → Q a (m u).1)
      → (n : ℕ) (w : World S) (a : A) → P w
      → (attempts n m w).0 ≡ ok a
      → Q a (attempts n m w).1
  attempts_return P Q m h q zero w a p e = q w a p e
  attempts_return P Q m h q (suc n) w a p e =
      settle_returns P Q (m w).0 (m w).1 (attempts n m) (λ b b_ok. q w b p b_ok)
        (λ u b pu b_ok. attempts_return P Q m h q n u b pu b_ok) (h w p) a e

abbrev pub three_attempts : {S : Type 0} → Temporal S
three_attempts = record { execute = λ A m. attempts 2 m }

abbrev pub Alone : {S : Type 0} → World S → World S → Type 0
Alone w w' = ⊥

pub three_attempts_laws : {S : Type 0} → TemporalLaws S Alone three_attempts
three_attempts_laws = record {
  keeps = λ A m P stable h w p. attempts_keep P m h 2 w p;
  returns = λ A m P Q stable still h q w a p e. attempts_return P Q m h q 2 w a p e;
}

pub three_attempts-Undisturbed : {S : Type 0} → Undisturbed S three_attempts
three_attempts-Undisturbed = record { first_run = λ A m w a e. cc e }
