-- ===== src/Chaos.antt =====
-- internal/chaos: which activities are failed on purpose. The numbers of math/rand and the comparisons
-- of floating point numbers are parameters.
use tenantflow.Prelude.{
  Text, Bool, true, false, ◌≡◌, refl, ◌||◌, ◌&&◌, not, List, [], ◌∷◌, Option, none, some, codes,
  text_eq, if◌then◌else◌, arith,
}
use tenantflow.World.{Result, err, other}

-- `m[a]` of the map, as the list of its keys
unfoldable pub is_target : Text → List Text → Bool
is_target a [] = false
is_target a (t ∷ ts) = text_eq t a || is_target a ts

abbrev with_key : Text → Option (List Text) → Option (List Text)
with_key a none = some (a ∷ [])
with_key a (some ts) = some (a ∷ ts)

-- The loop of NewController: "*" drops the filter and ends it.
unfoldable pub filter_of : Option (List Text) → List Text → Option (List Text)
filter_of only [] = only
filter_of only (a ∷ as') = if text_eq a (codes "*") then none else filter_of (with_key a only) as'

pub record Controller (F : Type 0) : Type 0 where
  pub rate : F
  pub only : Option (List Text)

abbrev pub new_controller : {F : Type 0} → F → List Text → Controller F
new_controller rate activities = record { rate = rate; only = filter_of none activities }

unfoldable pub is_eligible : Option (List Text) → Text → Bool
unfolding is_target
is_eligible none a = true
is_eligible (some ts) a = is_target a ts

module _ {F : Type 0} (is_at_most_zero : F → Bool) (is_below : F → F → Bool) where
  -- ShouldFail, with the number that the generator would give.
  unfoldable pub should_fail : Controller F → Text → F → Bool
  unfolding is_eligible
  should_fail c activity drawn =
      not (is_at_most_zero c.rate) && (is_eligible c.only activity && is_below drawn c.rate)

  -- ExecuteActivity of the interceptor: the injected error comes in place of the activity.
  unfoldable pub execute_activity_or_fail :
      {S A : Type 0} → Controller F → Text → F → (S → Result A × S) → S → Result A × S
  unfolding should_fail
  execute_activity_or_fail c activity drawn next s =
      if should_fail c activity drawn then (err other, s) else next s

-- What the filter of a list should be: everything if "*" is in the list or it is empty.
unfoldable pub is_meant : Text → List Text → Bool
unfolding is_target
is_meant a [] = true
is_meant a (t ∷ ts) = is_target (codes "*") (t ∷ ts) || is_target a (t ∷ ts)

is_eligible-some :
    (a : Text) (kept as' : List Text)
    → is_eligible (filter_of (some kept) as') a
      ≡ (is_target (codes "*") as' || (is_target a kept || is_target a as'))
unfolding is_eligible filter_of
is_eligible-some a kept [] = ground arith
is_eligible-some a kept (t ∷ ts) = ground (arith, is_eligible-some a (t ∷ kept) ts)

-- The filter that NewController builds, by its loop that ends at "*", lets through the activities that
-- are meant: every one if the list is empty or "*" is anywhere in it, else those that it names.
pub is_eligible-filter_of :
    (a : Text) (activities : List Text)
    → is_eligible (filter_of none activities) a ≡ is_meant a activities
unfolding is_eligible filter_of is_meant
is_eligible-filter_of a [] = refl
is_eligible-filter_of a (t ∷ ts) = ground (arith, is_eligible-some a (t ∷ []) ts)
