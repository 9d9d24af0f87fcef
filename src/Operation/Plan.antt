-- ===== src/Operation/Plan.antt =====
-- What a plan must satisfy before it is executed or recovered: validatePlan of engine.go.
use wiregate.Prelude.{
  ℕ, ◌+◌, Bool, true, not, ◌&&◌, ◌||◌, List, [], ◌∷◌, Option, none, some, str_eq, leb, ◌==◌, length,
  if◌then◌else◌,
}
use wiregate.Operation.Action.{Error}
use wiregate.Operation.Step.{StepRecord, Effect}
use wiregate.Operation.Rollback.{Operation}

-- `slices.IsSorted(orders)`
orders_sorted : List StepRecord → Bool
orders_sorted [] = true
orders_sorted (a ∷ []) = true
orders_sorted (a ∷ b ∷ steps) = leb a.order b.order && orders_sorted (b ∷ steps)

module _ {W : Type 0} where
  -- The loop of `validatePlan` over the steps, from an index on; the lists have one length.
  unfoldable pub check_steps : ℕ → List StepRecord → List (Effect W) → Option Error
  check_steps i [] effects = none
  check_steps i (step ∷ steps) [] = some Error.index_out_of_range
  check_steps i (step ∷ steps) (effect ∷ effects) =
      if str_eq step.id ""
        || not (str_eq step.name effect.name)
        || str_eq step.original_fingerprint ""
        || str_eq step.proposed_fingerprint ""
      then some (Error.invalid_step i)
      else check_steps (i + 1) steps effects

  unfoldable pub validate_plan : Operation → List (Effect W) → Option Error
  unfolding check_steps orders_sorted
  validate_plan operation effects =
      if str_eq operation.id ""
      then some Error.record_required
      else if not (length operation.steps == length effects)
      then some Error.count_mismatch
      else elim (check_steps 0 operation.steps effects) [
        | some e ↦ some e
        | none ↦ if orders_sorted operation.steps then none else some Error.not_ordered
      ]
