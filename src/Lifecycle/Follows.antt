-- ===== src/Lifecycle/Follows.antt =====
-- Calls that follow the relation: a rule for each way to build a call.
use tenantflow.Prelude.{⊤, Bool, true, false, refl, List, [], ◌∷◌, if◌then◌else◌}
use tenantflow.World.{
  World, Act, Result, ok, err, Error, Outcome, done, refused, lost, Answer, statement, pure, raise,
  ◌>>=◌, or_else, ignoring, external, advance, answered, by_outcome,
}
use tenantflow.Workflow.Temporal.{Temporal, TemporalLaws}
use tenantflow.Lifecycle.Steps.{Reach, here, Reach-trans, Reach-Step, answer, provider}

-- Whatever it answers, `m` leaves a world that the relation reaches.
pub record Follows {S A : Type 0} (m : Act S A) : Type 0 where
  pub at : (w : World S) → Reach w (m w).1

module _ {S A : Type 0} where
  pub Follows-pure : (a : A) → Follows {S = S} (pure a)
  Follows-pure a = record { at = λ w. here }

  pub Follows-raise : (e : Error) → Follows {S = S} {A = A} (raise e)
  Follows-raise e = record { at = λ w. here }

  pub Follows-external : (f : S → Result A × S) → Follows (external f)
  Follows-external f = record { at = λ w. Reach-Step (provider (f w.ext).1 refl) }

  pub Follows-if : (b : Bool) (m n : Act S A) → Follows m → Follows n → Follows (if b then m else n)
  Follows-if true m n fm fn = fm
  Follows-if false m n fm fn = fn

  by_outcome-Reach :
      (o : Outcome) (m : Act S A) (w : World S) → Follows m → Reach w (by_outcome o m w).1
  by_outcome-Reach done m w f = f.at w
  by_outcome-Reach refused m w f = here
  by_outcome-Reach lost m w f = f.at w

  answered-Reach :
      (answers : List Answer) (m : Act S A) (w : World S)
      → Follows m
      → Reach w (answered answers m w).1
  answered-Reach [] m w f = f.at w
  answered-Reach (a ∷ rest) m w f =
      Reach-trans (Reach-Step (answer rest a.clock refl))
        (by_outcome-Reach a.outcome m (advance w rest a.clock) f)

  pub Follows-statement : (m : Act S A) → Follows m → Follows (statement m)
  unfolding statement
  Follows-statement m f = record { at = λ w. answered-Reach w.answers m w f }

module _ {S A B : Type 0} where
  continue-Reach :
      (r : Result A) (f : A → Act S B) (w : World S)
      → ((a : A) → Follows (f a))
      → Reach w (◌>>=◌ (λ u. (r, u)) f w).1
  continue-Reach (ok a) f w ff = (ff a).at w
  continue-Reach (err e) f w ff = here

  pub Follows-bind :
      (m : Act S A) (f : A → Act S B) → Follows m → ((a : A) → Follows (f a)) → Follows (m >>= f)
  Follows-bind m f fm ff = record {
    at = λ w. Reach-trans (fm.at w) (continue-Reach (m w).0 f (m w).1 ff);
  }

module _ {S A : Type 0} where
  handle-Reach :
      (r : Result A) (f : Error → Act S A) (w : World S)
      → ((e : Error) → Follows (f e))
      → Reach w (or_else (λ u. (r, u)) f w).1
  handle-Reach (ok a) f w ff = here
  handle-Reach (err e) f w ff = (ff e).at w

  pub Follows-or_else :
      (m : Act S A) (f : Error → Act S A)
      → Follows m
      → ((e : Error) → Follows (f e))
      → Follows (or_else m f)
  Follows-or_else m f fm ff = record {
    at = λ w. Reach-trans (fm.at w) (handle-Reach (m w).0 f (m w).1 ff);
  }

pub Follows-ignoring : {S : Type 0} (m : Act S ⊤) → Follows m → Follows (ignoring m)
Follows-ignoring m f = record { at = f.at }

-- An execution follows the relation if the activity does and the others do.
pub Follows-execute :
    {S A : Type 0} {rely : World S → World S → Type 0} {t : Temporal S}
    → TemporalLaws S rely t
    → ((w w' : World S) → rely w w' → Reach w w')
    → (m : Act S A) → Follows m
    → Follows (t.execute A m)
Follows-execute {S = S} {A = A} laws others m f = record {
  at = λ w.
      laws.keeps A m (λ u. Reach w u) (λ u v r q. Reach-trans q (others u v r))
        (λ u q. Reach-trans q (f.at u)) w here;
}

pub ruleset call_rules = (
  Follows-pure, Follows-raise, Follows-external, Follows-if, Follows-bind, Follows-or_else,
  Follows-ignoring,
)
