-- ===== src/Call.antt =====
-- A call of Go code on a state of any type, `(T, error)`: the errors are those of World.antt.
use tenantflow.Prelude.{⊤, ◌≡◌, refl, ◌⊎◌, inl, inr}
use tenantflow.World.{Error, Result, ok, err}

abbrev pub Call : Type 0 → Type 0 → Type 0
Call S A = S → Result A × S

module _ {S A : Type 0} where
  abbrev pub return : A → Call S A
  return a s = (ok a, s)

  abbrev pub fail : Error → Call S A
  fail e s = (err e, s)

infixl 5 ◌>>=◌ ◌>>◌
abbrev pub ◌>>=◌ : {S A B : Type 0} → Call S A → (A → Call S B) → Call S B
◌>>=◌ m f s = let (r, s') = m s in elim r [ ok a ↦ f a s' | err e ↦ (err e, s') ]

abbrev pub ◌>>◌ : {S B : Type 0} → Call S ⊤ → Call S B → Call S B
m >> k = m >>= λ _. k

-- `_ = m`: the answer and the error are dropped, the effect stays.
abbrev pub dropping : {S : Type 0} → Call S ⊤ → Call S ⊤
dropping m s = (ok tt, (m s).1)

module _ {S A B : Type 0} (m : Call S A) (f : A → Call S B) (s : S) where
  pub bind-ok : (a : A) → (m s).0 ≡ ok a → (m >>= f) s ≡ f a (m s).1
  bind-ok a e = cc e

  pub bind-err : (x : Error) → (m s).0 ≡ err x → (m >>= f) s ≡ (err x, (m s).1)
  bind-err x e = cc e

pub Result-cases :
    {A : Type 0} (r : Result A) → ((a : A) × (r ≡ ok a)) ⊎ ((e : Error) × (r ≡ err e))
Result-cases (ok a) = inl (a, refl)
Result-cases (err e) = inr (e, refl)

-- A sequence that succeeds is a success and what follows it.
pub bind-succeeds :
    {S A B : Type 0} (m : Call S A) (f : A → Call S B) (s : S) (b : B)
    → ((m >>= f) s).0 ≡ ok b
    → (a : A) × ((m s).0 ≡ ok a) × ((m >>= f) s ≡ f a (m s).1)
bind-succeeds m f s b h = elim (Result-cases (m s).0) [
  | inl (a, e) ↦ (a, e, bind-ok m f s a e)
  | inr (x, e) ↦ absurd (cc (h, bind-err m f s x e))
]
