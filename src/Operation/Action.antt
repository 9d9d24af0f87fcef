-- ===== src/Operation/Action.antt =====
-- Actions that read and write a state and may end with an error, and the errors of the engine.
-- What an action wrote before its error stays written, as through a Go pointer.
use wiregate.Prelude.{ℕ, Bool, true, false, ◌||◌, String}
use wiregate.Operation.State.{State, StepState}

-- The errors that engine.go makes, one constructor for a message, with the error that `%w` wraps.
-- An adapter or the journal returns `external`, or one of the two errors of package context.
pub data Error : Type 0 where
  external : String → Error
  deadline_exceeded canceled : Error
  index_out_of_range record_required count_mismatch not_ordered : Error
  invalid_step : ℕ → Error
  not_snapshotted : String → Error
  state_changed invalid_transition : State → State → Error
  step_state_changed invalid_step_transition : StepState → StepState → Error
  step_not_pending cannot_retry original_changed ambiguous rollback_unverified : String → Error
  invalid_recovery_state : String → StepState → Error
  inspect_step apply_failed verify_failed retry_failed : String → Error → Error
  inspect_rollback rollback_step_failed : String → Error → Error
  proposed_not_observed recovery_verification_failed blocked : Error
  verify_operation rollback_failed : Error → Error
  join : Error → Error → Error

-- `errors.Is(err, context.DeadlineExceeded)` follows `Unwrap` through `%w` and `errors.Join`.
unfoldable pub is_deadline : Error → Bool
is_deadline Error.deadline_exceeded = true
is_deadline (Error.inspect_step n e) = is_deadline e
is_deadline (Error.apply_failed n e) = is_deadline e
is_deadline (Error.verify_failed n e) = is_deadline e
is_deadline (Error.retry_failed n e) = is_deadline e
is_deadline (Error.inspect_rollback n e) = is_deadline e
is_deadline (Error.rollback_step_failed n e) = is_deadline e
is_deadline (Error.verify_operation e) = is_deadline e
is_deadline (Error.rollback_failed e) = is_deadline e
is_deadline (Error.join e f) = is_deadline e || is_deadline f
is_deadline _ = false

unfoldable pub is_canceled : Error → Bool
is_canceled Error.canceled = true
is_canceled (Error.inspect_step n e) = is_canceled e
is_canceled (Error.apply_failed n e) = is_canceled e
is_canceled (Error.verify_failed n e) = is_canceled e
is_canceled (Error.retry_failed n e) = is_canceled e
is_canceled (Error.inspect_rollback n e) = is_canceled e
is_canceled (Error.rollback_step_failed n e) = is_canceled e
is_canceled (Error.verify_operation e) = is_canceled e
is_canceled (Error.rollback_failed e) = is_canceled e
is_canceled (Error.join e f) = is_canceled e || is_canceled f
is_canceled _ = false

pub data Result (A : Type 0) : Type 0 where
  ok : A → Result A
  err : Error → Result A

abbrev pub Action : Type 0 → Type 0 → Type 0
Action S A = S → Result A × S

module _ {S : Type 0} where
  abbrev pub return : {A : Type 0} → A → Action S A
  return a s = (ok a, s)

  abbrev pub fail : {A : Type 0} → Error → Action S A
  fail e s = (err e, s)

  infixl 5 ◌>>=◌ ◌>>◌
  abbrev pub ◌>>=◌ : {A B : Type 0} → Action S A → (A → Action S B) → Action S B
  ◌>>=◌ m f s = let (r, s') = m s in elim r [ ok a ↦ f a s' | err e ↦ (err e, s') ]

  abbrev pub ◌>>◌ : {A B : Type 0} → Action S A → Action S B → Action S B
  m >> k = m >>= λ _. k

  -- `if err := m; err != nil { return handler(err) }`
  abbrev pub on_error : {A : Type 0} → Action S A → (Error → Action S A) → Action S A
  on_error m handler s = let (r, s') = m s in elim r [ ok a ↦ (ok a, s') | err e ↦ handler e s' ]

  -- `if err := m; err != nil { return handler(err) }`, and then the rest of the function.
  abbrev pub branch :
      {A B : Type 0} → Action S A → (Error → Action S B) → (A → Action S B) → Action S B
  branch m handler rest s = let (r, s') = m s in elim r [ ok a ↦ rest a s' | err e ↦ handler e s' ]

  -- `_ = m`
  abbrev pub ignore : {A : Type 0} → Action S A → Action S (Unit {0})
  ignore m s = (ok tt, (m s).1)

abbrev pub Done : Type 0
Done = Result (Unit {0})

abbrev pub done : Done
done = ok tt
