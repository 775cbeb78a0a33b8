-- ===== src/Contracts/Stages.antt =====
-- Contracts of the forms in which the activities and workflows put calls together: a call whose error
-- is dropped or joined, a stage of a workflow, a sequence.
use tenantflow.Prelude.{⊤, ◌≡◌, ◌≢◌, refl}
use tenantflow.World.{World, Act, Error, Result, ok, err, ◌>>=◌, or_else, ignoring, with_cleanup}
use tenantflow.Workflow.Temporal.{Temporal, TemporalLaws, joining}
use tenantflow.Contracts.{
  Holds, Keeps, Anything, Holds-pure, Holds-raise, Holds-bind, Holds-or_else, Holds-weaken,
  Holds-execute,
}

pub Keeps-ignoring :
    {S : Type 0} {I : World S → Type 0} (m : Act S ⊤) → Keeps I m → Keeps I (ignoring m)
Keeps-ignoring m h = record { ends = λ w i. h.ends w i; gives = λ w a i e. tt }

module _ {S A B : Type 0} {I J K : World S → Type 0} {R : B → World S → Type 0} where
  -- After a call whose result tells nothing.
  pub Holds-then :
      (m : Act S A) (f : A → Act S B)
      → Holds I J Anything m
      → ((u : World S) → J u → K u)
      → ((a : A) → Holds J K R (f a))
      → Holds I K R (m >>= f)
  Holds-then m f hm still hf =
      Holds-bind m f hm still (λ a. Holds-weaken (λ w i. i.0) (λ w i. i) (λ b w r. r) (hf a))

  -- After a call whose result satisfies a fact that no world matters to.
  pub Holds-knowing :
      {F : A → Type 0} (m : Act S A) (f : A → Act S B)
      → Holds I J (λ a w. F a) m
      → ((u : World S) → J u → K u)
      → ((a : A) → F a → Holds J K R (f a))
      → Holds I K R (m >>= f)
  Holds-knowing m f hm still hf = Holds-bind m f hm still (λ a. record {
    ends = λ w i. (hf a i.1).ends w i.0;
    gives = λ w b i e. (hf a i.1).gives w b i.0 e;
  })

pub Keeps-joining :
    {S : Type 0} {I : World S → Type 0} (m : Act S ⊤) (e : Error)
    → Keeps I m
    → Keeps I (joining m e)
Keeps-joining m e h =
    Holds-or_else _ _ (Holds-then m _ h (λ w i. i) (λ a. Holds-pure e (λ w i. i) (λ w i. tt)))
      (λ w i. i) (λ f. Holds-pure _ (λ w i. i) (λ w i. tt))

-- A stage of a saga: an execution, and a handler that compensates and raises. Behind a success only
-- what the success tells goes on.
module _ {S A : Type 0} {rely : World S → World S → Type 0} {t : Temporal S}
    {I K : World S → Type 0} {Q : A → World S → Type 0} where
  pub Holds-stage :
      TemporalLaws S rely t
      → ((w w' : World S) → rely w w' → I w → I w')
      → ((a : A) (w w' : World S) → rely w w' → Q a w → Q a w')
      → (m : Act S A) (handler : Error → Act S A) → Holds I I Q m
      → ((w : World S) → I w → K w)
      → ((e : Error) → Holds I K Q (handler e))
      → Holds I K Q (or_else (t.execute A m) handler)
  Holds-stage laws stable still m handler h weaker handled =
      Holds-or_else _ handler (Holds-execute laws stable still m h) weaker handled

module _ {S A : Type 0} {I K : World S → Type 0} {Q : A → World S → Type 0} where
  pub Holds-next :
      {B : Type 0} {R : B → World S → Type 0} (m : Act S A) (f : A → Act S B)
      → Holds I K Q m
      → ((a : A) → Holds (Q a) K R (f a))
      → Holds I K R (m >>= f)
  Holds-next m f hm hf =
      Holds-bind m f hm (λ w k. k) (λ a. Holds-weaken (λ w i. i.1) (λ w i. i) (λ b w r. r) (hf a))

pub Holds-given :
    {S A : Type 0} {I K : World S → Type 0} {R : A → World S → Type 0} {F : Type 0} {m : Act S A}
    → (F → Holds I K R m)
    → Holds (λ w. I w × F) K R m
Holds-given h = record {
  ends = λ w i. (h i.1).ends w i.0;
  gives = λ w a i e. (h i.1).gives w a i.0 e;
}

-- What a call keeps, its success tells too.
pub Keeps-gives :
    {S A : Type 0} {I : World S → Type 0} {m : Act S A} → Keeps I m → Holds I I (λ a w. I w) m
Keeps-gives h = record { ends = h.ends; gives = λ w a i e. h.ends w i }

module _ {S : Type 0} {I J : World S → Type 0} {Q : ⊤ → World S → Type 0} where
  -- A cleanup runs only behind a failure, which it leaves a failure.
  pub Holds-with_cleanup :
      (m c : Act S ⊤) → Holds I J Q m → Keeps J c → Holds I J Q (with_cleanup m c)
  Holds-with_cleanup m c hm hc =
      Holds-or_else m _ hm (λ w j. j)
        λ e.
          Holds-then (ignoring c) _ (Keeps-ignoring c hc) (λ w j. j) (λ a. Holds-raise e (λ w j. j))

module _ {S A : Type 0} {J K : World S → Type 0} {Q : A → World S → Type 0} where
  settle_ends :
      (r : Result A) (f : Error → Act S A) (w : World S)
      → ((a : A) → r ≡ ok a → K w × Q a w)
      → (((a : A) → r ≢ ok a) → J w)
      → ((e : Error) → Holds J K Q (f e))
      → K (or_else (λ u. (r, u)) f w).1
  settle_ends (ok a) f w succeeds fails hf = (succeeds a refl).0
  settle_ends (err e) f w succeeds fails hf = (hf e).ends w (fails (λ a h. cc))

  settle_gives :
      (r : Result A) (f : Error → Act S A) (w : World S) (b : A)
      → ((a : A) → r ≡ ok a → K w × Q a w)
      → (((a : A) → r ≢ ok a) → J w)
      → ((e : Error) → Holds J K Q (f e))
      → (or_else (λ u. (r, u)) f w).0 ≡ ok b
      → Q b (or_else (λ u. (r, u)) f w).1
  settle_gives (ok a) f w b succeeds fails hf h = (succeeds b h).1
  settle_gives (err e) f w b succeeds fails hf h = (hf e).gives w b (fails (λ a y. cc)) h

  -- A handler starts from what a failure tells.
  pub Holds-on_failure :
      {I : World S → Type 0} (m : Act S A) (f : Error → Act S A)
      → ((w : World S) → I w → (a : A) → (m w).0 ≡ ok a → K (m w).1 × Q a (m w).1)
      → ((w : World S) → I w → ((a : A) → (m w).0 ≢ ok a) → J (m w).1)
      → ((e : Error) → Holds J K Q (f e))
      → Holds I K Q (or_else m f)
  Holds-on_failure m f succeeds fails hf = record {
    ends = λ w i. settle_ends (m w).0 f (m w).1 (succeeds w i) (fails w i) hf;
    gives = λ w b i h. settle_gives (m w).0 f (m w).1 b (succeeds w i) (fails w i) hf h;
  }
