-- ===== src/Worker/Interceptors.antt =====
-- The chain of interceptors that internal/worker/worker.go puts around each attempt of an activity:
-- the counter of internal/metrics/interceptor.go, the recorder of internal/instance/recorder.go and the
-- injection of internal/chaos/interceptor.go. The text of an error is a parameter.
use tenantflow.Prelude.{Text, Bool, true, false, ◌≡◌, List, ◌∷◌, Option, none, some, if◌then◌else◌}
use tenantflow.World.{World, Act, Result, ok, err, Error, other}
use tenantflow.Repository.Sorted.{Stands}
use tenantflow.Chaos.{Controller, should_fail, execute_activity_or_fail}
use tenantflow.Recorder.{Instance, RunInfo, Recorded, Reached, is_run, mark_running, mark_failed}

-- The tables, the recorder, and the executions that the counter saw: the activity, and whether the
-- attempt was completed.
pub record Watched (S : Type 0) : Type 0 where
  pub world : World S
  pub mirror : Recorded
  pub counted : List (Text × Bool)

-- An attempt, as an interceptor sees what follows it in the chain.
abbrev pub Attempt : Type 0 → Type 0 → Type 0
Attempt S A = Watched S → Result A × Watched S

abbrev pub is_completed : {A : Type 0} → Result A → Bool
is_completed (ok a) = true
is_completed (err e) = false

module _ {S A : Type 0} where
  abbrev bare_attempt : Act S A → Attempt S A
  bare_attempt activity s = let out = activity s.world in (out.0, record s { world = out.1 })

  -- ExecuteActivity of the counter
  unfoldable pub counted_attempt : Text → Attempt S A → Attempt S A
  counted_attempt name next s =
      let out = next s in
      (out.0, record out.1 { counted = (name, is_completed out.0) ∷ out.1.counted })

  abbrev mark_result : (Error → Text) → Reached → RunInfo → Result A → Watched S → Watched S
  mark_result text updated info (ok a) s = s
  mark_result text updated info (err e) s = record s {
    mirror = mark_failed updated (text e) info s.mirror;
  }

  -- ExecuteActivity of the recorder
  unfoldable pub recorded_attempt :
      (Error → Text) → Reached → Reached → RunInfo → Attempt S A → Attempt S A
  recorded_attempt text inserted updated info next s =
      let out = next (record s { mirror = mark_running inserted info s.mirror }) in
      (out.0, mark_result text updated info out.0 out.1)

module _ {F : Type 0} (is_at_most_zero : F → Bool) (is_below : F → F → Bool) {S A : Type 0} where
  -- The controller may be missing: `chaosCtrl != nil`.
  abbrev injected_attempt : Option (Controller F) → Text → F → Attempt S A → Attempt S A
  injected_attempt none name drawn next = next
  injected_attempt (some c) name drawn next =
      execute_activity_or_fail is_at_most_zero is_below c name drawn next

  -- The interceptors in their order, the counter outermost.
  unfoldable pub intercepted :
      (Error → Text)
      → Option (Controller F)
      → F
      → Text
      → Reached
      → Reached
      → RunInfo
      → Act S A
      → Attempt S A
  unfolding counted_attempt recorded_attempt execute_activity_or_fail
  intercepted text chaos drawn name inserted updated info activity = counted_attempt name (
      recorded_attempt text inserted updated info
        (injected_attempt chaos name drawn (bare_attempt activity)))

-- The run's row is failed, with the message.
abbrev pub IsMarked : RunInfo → Text → List Instance → Type 0
IsMarked info message rows =
    (i : Instance) × Stands i rows
    × (is_run info.workflow_id info.run_id i ≡ true)
    × (i.has_failed ≡ true)
    × (i.error ≡ some message)

-- What the recorder is told of a result.
abbrev pub message_of : {A : Type 0} → (Error → Text) → Result A → Option Text
message_of text (ok a) = none
message_of text (err e) = some (text e)

abbrev pub is_injected :
    {F : Type 0} → (F → Bool) → (F → F → Bool) → Option (Controller F) → Text → F → Bool
is_injected is_at_most_zero is_below none name drawn = false
is_injected is_at_most_zero is_below (some c) name drawn =
    should_fail is_at_most_zero is_below c name drawn

module _ {F : Type 0} (is_at_most_zero : F → Bool) (is_below : F → F → Bool) {S A : Type 0} where
  -- The activity's own answer, or the injected error.
  abbrev pub answer_of : Option (Controller F) → Text → F → Act S A → World S → Result A × World S
  answer_of chaos name drawn activity w =
      if is_injected is_at_most_zero is_below chaos name drawn then (err other, w) else activity w

  module _ (text : Error → Text) (chaos : Option (Controller F)) (drawn : F) (name : Text)
      (inserted updated : Reached) (info : RunInfo) (activity : Act S A) where
    abbrev pub attempted : Attempt S A
    attempted =
        intercepted is_at_most_zero is_below text chaos drawn name inserted updated info activity
