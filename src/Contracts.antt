-- ===== src/Contracts.antt =====
-- Contracts of calls: what holds behind a call, whatever it answers, and what its success tells.
pub mod Stages
pub mod Statements
pub mod Plans
pub mod Upgrade
pub mod Status
pub mod Endings
pub mod Missing
pub mod Escalation
pub mod Unverified
pub mod Migration
pub mod Restoration
use tenantflow.Prelude.{ℕ, ⊤, Bool, true, false, ◌≡◌, refl, List, [], ◌∷◌, if◌then◌else◌, subst}
use tenantflow.World.{
  World, Act, Result, ok, err, Error, Outcome, done, refused, lost, Answer, statement, pure, raise,
  ◌>>=◌, or_else, ignoring, external, advance, answered, by_outcome,
}
use tenantflow.Workflow.Temporal.{Temporal, TemporalLaws, joining}

-- From `I`, the call ends in `J`, and if it succeeds its result satisfies `Q`.
pub record Holds {S A : Type 0} (I J : World S → Type 0) (Q : A → World S → Type 0) (m : Act S A)
    : Type 0 where
  pub ends : (w : World S) → I w → J (m w).1
  pub gives : (w : World S) (a : A) → I w → (m w).0 ≡ ok a → Q a (m w).1

-- What a success tells, where it tells nothing.
abbrev pub Anything : {S A : Type 0} → A → World S → Type 0
Anything a w = ⊤

-- `m` keeps `I`.
abbrev pub Keeps : {S A : Type 0} → (World S → Type 0) → Act S A → Type 0
Keeps I m = Holds I I Anything m

module _ {S A : Type 0} {I J : World S → Type 0} {Q : A → World S → Type 0} where
  pub Holds-pure :
      (a : A) → ((w : World S) → I w → J w) → ((w : World S) → I w → Q a w) → Holds I J Q (pure a)
  Holds-pure a j q = record {
    ends = λ w i. j w i;
    gives = λ w b i e. let same : a ≡ b = cc e in subst (λ c. Q c w) same (q w i);
  }

  pub Holds-raise : (e : Error) → ((w : World S) → I w → J w) → Holds I J Q (raise e)
  Holds-raise e j = record { ends = λ w i. j w i; gives = λ w b i h. absurd (cc h) }

  pub Holds-if :
      (b : Bool) (m n : Act S A)
      → (b ≡ true → Holds I J Q m)
      → (b ≡ false → Holds I J Q n)
      → Holds I J Q (if b then m else n)
  Holds-if true m n hm hn = hm refl
  Holds-if false m n hm hn = hn refl

  -- A call of a provider, by what it does to the provider's state.
  pub Holds-external :
      (f : S → Result A × S)
      → ((w : World S) → I w → J (record w { ext = (f w.ext).1 }))
      → ((w : World S) (a : A) → I w → (f w.ext).0 ≡ ok a → Q a (record w { ext = (f w.ext).1 }))
      → Holds I J Q (external f)
  Holds-external f j q = record { ends = j; gives = q }

  by_outcome_ends :
      (o : Outcome) (m : Act S A) (w : World S)
      → ((u : World S) → I u → J u)
      → Holds I J Q m
      → I w
      → J (by_outcome o m w).1
  by_outcome_ends done m w still h i = h.ends w i
  by_outcome_ends refused m w still h i = still w i
  by_outcome_ends lost m w still h i = h.ends w i

  by_outcome_gives :
      (o : Outcome) (m : Act S A) (w : World S) (a : A)
      → Holds I J Q m
      → I w
      → (by_outcome o m w).0 ≡ ok a
      → Q a (by_outcome o m w).1
  by_outcome_gives done m w a h i e = h.gives w a i e
  by_outcome_gives refused m w a h i e = absurd (cc e)
  by_outcome_gives lost m w a h i e = absurd (cc e)

  answered_ends :
      (answers : List Answer) (m : Act S A) (w : World S)
      → ((u : World S) (rest : List Answer) (c : ℕ) → I u → I (advance u rest c))
      → ((u : World S) → I u → J u)
      → Holds I J Q m
      → I w
      → J (answered answers m w).1
  answered_ends [] m w clock still h i = h.ends w i
  answered_ends (a ∷ rest) m w clock still h i =
      by_outcome_ends a.outcome m (advance w rest a.clock) still h (clock w rest a.clock i)

  answered_gives :
      (answers : List Answer) (m : Act S A) (w : World S) (a : A)
      → ((u : World S) (rest : List Answer) (c : ℕ) → I u → I (advance u rest c))
      → Holds I J Q m
      → I w
      → (answered answers m w).0 ≡ ok a
      → Q a (answered answers m w).1
  answered_gives [] m w a clock h i e = h.gives w a i e
  answered_gives (x ∷ rest) m w a clock h i e =
      by_outcome_gives x.outcome m (advance w rest x.clock) a h (clock w rest x.clock i) e

  -- A statement, if neither the clock nor the coming answers matter to `I`.
  pub Holds-statement :
      (m : Act S A)
      → ((u : World S) (rest : List Answer) (c : ℕ) → I u → I (advance u rest c))
      → ((u : World S) → I u → J u)
      → Holds I J Q m
      → Holds I J Q (statement m)
  unfolding statement
  Holds-statement m clock still h = record {
    ends = λ w i. answered_ends w.answers m w clock still h i;
    gives = λ w a i e. answered_gives w.answers m w a clock h i e;
  }

module _ {S A B : Type 0} {J K : World S → Type 0} {Q : A → World S → Type 0}
    {R : B → World S → Type 0} where
  continue_ends :
      (r : Result A) (f : A → Act S B) (w : World S)
      → ((u : World S) → J u → K u)
      → ((a : A) → Holds (λ u. J u × Q a u) K R (f a))
      → ((a : A) → r ≡ ok a → Q a w)
      → J w
      → K (◌>>=◌ (λ u. (r, u)) f w).1
  continue_ends (ok a) f w still hf q j = (hf a).ends w (j, q a refl)
  continue_ends (err e) f w still hf q j = still w j

  continue_gives :
      (r : Result A) (f : A → Act S B) (w : World S) (b : B)
      → ((a : A) → Holds (λ u. J u × Q a u) K R (f a))
      → ((a : A) → r ≡ ok a → Q a w)
      → J w
      → (◌>>=◌ (λ u. (r, u)) f w).0 ≡ ok b
      → R b (◌>>=◌ (λ u. (r, u)) f w).1
  continue_gives (ok a) f w b hf q j e = (hf a).gives w b (j, q a refl) e
  continue_gives (err x) f w b hf q j e = absurd (cc e)

  pub Holds-bind :
      {I : World S → Type 0} (m : Act S A) (f : A → Act S B)
      → Holds I J Q m
      → ((u : World S) → J u → K u)
      → ((a : A) → Holds (λ u. J u × Q a u) K R (f a))
      → Holds I K R (m >>= f)
  Holds-bind m f hm still hf = record {
    ends = λ w i. continue_ends (m w).0 f (m w).1 still hf (λ a e. hm.gives w a i e) (hm.ends w i);
    gives =
        λ w b i e. continue_gives (m w).0 f (m w).1 b hf (λ a x. hm.gives w a i x) (hm.ends w i) e;
  }

module _ {S A : Type 0} {J K : World S → Type 0} {Q : A → World S → Type 0} where
  handle_ends :
      (r : Result A) (f : Error → Act S A) (w : World S)
      → ((u : World S) → J u → K u)
      → ((e : Error) → Holds J K Q (f e))
      → J w
      → K (or_else (λ u. (r, u)) f w).1
  handle_ends (ok a) f w still hf j = still w j
  handle_ends (err e) f w still hf j = (hf e).ends w j

  handle_gives :
      (r : Result A) (f : Error → Act S A) (w : World S) (a : A)
      → ((e : Error) → Holds J K Q (f e))
      → ((b : A) → r ≡ ok b → Q b w)
      → J w
      → (or_else (λ u. (r, u)) f w).0 ≡ ok a
      → Q a (or_else (λ u. (r, u)) f w).1
  handle_gives (ok b) f w a hf q j e = q a e
  handle_gives (err x) f w a hf q j e = (hf x).gives w a j e

  pub Holds-or_else :
      {I : World S → Type 0} (m : Act S A) (f : Error → Act S A)
      → Holds I J Q m
      → ((u : World S) → J u → K u)
      → ((e : Error) → Holds J K Q (f e))
      → Holds I K Q (or_else m f)
  Holds-or_else m f hm still hf = record {
    ends = λ w i. handle_ends (m w).0 f (m w).1 still hf (hm.ends w i);
    gives =
        λ w a i e. handle_gives (m w).0 f (m w).1 a hf (λ b x. hm.gives w b i x) (hm.ends w i) e;
  }

module _ {S A : Type 0} where
  pub Holds-weaken :
      {I I' J J' : World S → Type 0} {Q R : A → World S → Type 0} {m : Act S A}
      → ((w : World S) → I' w → I w)
      → ((w : World S) → J w → J' w)
      → ((a : A) (w : World S) → Q a w → R a w)
      → Holds I J Q m
      → Holds I' J' R m
  Holds-weaken i j q h = record {
    ends = λ w x. j (_) (h.ends w (i w x));
    gives = λ w a x e. q a (_) (h.gives w a (i w x) e);
  }

  -- An execution of an activity that keeps `I`, if others keep `I` and what a success tells.
  pub Holds-execute :
      {rely : World S → World S → Type 0} {t : Temporal S} {I : World S → Type 0}
      {Q : A → World S → Type 0}
      → TemporalLaws S rely t
      → ((w w' : World S) → rely w w' → I w → I w')
      → ((a : A) (w w' : World S) → rely w w' → Q a w → Q a w')
      → (m : Act S A) → Holds I I Q m
      → Holds I I Q (t.execute A m)
  Holds-execute {I = I} {Q = Q} laws stable still m h = record {
    ends = λ w i. laws.keeps A m I stable (λ u x. h.ends u x) w i;
    gives = λ w a i e.
        laws.returns A m I Q stable still (λ u x. h.ends u x) (λ u b x y. h.gives u b x y) w a i e;
  }
