-- ===== src/Operation/Step.antt =====
-- One step of an operation: its record, its effect, and the functions of engine.go that move it
-- (stepTransition, verifyStep, applyStep, and the bodies of the loops in rollback and
-- recoverExecuting).
use wiregate.Prelude.{ℕ, Bool, true, not, ◌&&◌, Option, none, some, String, str_eq, if◌then◌else◌}
use wiregate.Operation.State.{State, StepState, same_step_state, valid_step_transition}
use wiregate.Operation.Action.{
  Error, is_deadline, is_canceled, Result, ok, err, Action, return, fail, ◌>>=◌, ◌>>◌, on_error,
  branch, ignore, Done,
}

pub record Failure : Type 0 where
  pub code : String
  pub message : String

unfoldable pub safe_failure : String → Error → Failure
unfolding is_deadline is_canceled
safe_failure code e = record {
  code = code;
  message =
      if is_deadline e
      then "operation deadline exceeded"
      else if is_canceled e
      then "operation canceled"
      else "operation step failed";
}

pub record StepRecord : Type 0 where
  pub id : String
  pub order : ℕ
  pub name : String
  pub kind : String
  pub state : StepState
  pub original_fingerprint : String
  pub proposed_fingerprint : String
  pub error_redacted : String

-- The journal and the adapters act on a world that the engine does not look into: the durable
-- store, the host, and whatever else may change between two calls.
pub record Journal (W : Type 0) : Type 0 where
  pub transition_operation : String → State → State → Option Failure → W → Done × W
  pub transition_step : String → StepState → StepState → Option Failure → W → Done × W

pub record Effect (W : Type 0) : Type 0 where
  pub name : String
  pub inspect : W → Result String × W
  pub apply : W → Done × W
  pub rollback : W → Done × W
  pub idempotent : Bool

-- What a step's action changes.
pub record At (W : Type 0) : Type 0 where
  pub step : StepRecord
  pub world : W

-- The test of `continue` in the loop of `rollback`.
abbrev pub skipped : StepState → Bool
skipped s =
    not (same_step_state s StepState.applied)
    && not (same_step_state s StepState.executing)
    && not (same_step_state s StepState.failed)
    && not (same_step_state s StepState.rolling_back)

module _ {W : Type 0} where
  -- A call of the journal or of an adapter.
  abbrev pub call : {A : Type 0} → (W → Result A × W) → Action (At W) A
  call f c = let (r, w) = f c.world in (r, record c { world = w })

  abbrev pub set_state : StepState → Action (At W) (Unit {0})
  set_state to c = (ok tt, record { step = record (c.step) { state = to }; world = c.world })

  unfoldable pub step_transition :
      Journal W → StepState → StepState → Option Failure → Action (At W) (Unit {0})
  unfolding valid_step_transition
  step_transition j from to failure c =
      if not (same_step_state c.step.state from)
      then (err (Error.step_state_changed from c.step.state), c)
      else if not (valid_step_transition from to)
      then (err (Error.invalid_step_transition from to), c)
      else (call (j.transition_step c.step.id from to failure) >> set_state to) c

  -- The transition to `failed` after an error is tried, and its own error is dropped.
  abbrev mark_failed : Journal W → String → Error → Action (At W) (Unit {0})
  mark_failed j code e =
      ignore (step_transition j StepState.executing StepState.failed (some (safe_failure code e)))

  -- The functions below read the step's name and fingerprints, which no transition changes, and
  -- the state that it has at their start: they take the step as it is then for an argument.
  unfoldable pub verify_from : Journal W → Effect W → StepRecord → Action (At W) (Unit {0})
  verify_from j effect step = do
    fingerprint ←
        on_error (call effect.inspect)
          λ e. mark_failed j "STEP_VERIFY_FAILED" e >> fail (Error.verify_failed step.name e)
    if str_eq fingerprint step.proposed_fingerprint
        then step_transition j StepState.executing StepState.applied none
        else (mark_failed j "STEP_VERIFY_FAILED" Error.proposed_not_observed
            >> fail (Error.verify_failed step.name Error.proposed_not_observed))

  unfoldable pub verify_step : Journal W → Effect W → Action (At W) (Unit {0})
  unfolding verify_from
  verify_step j effect c = verify_from j effect c.step c

  -- `applyStep` after its first guard.
  unfoldable pub apply_from : Journal W → Effect W → Bool → StepRecord → Action (At W) (Unit {0})
  apply_from j effect recovery step = do
    step_transition j StepState.pending StepState.executing none
    fingerprint ←
        on_error (call effect.inspect)
          λ e. mark_failed j "STEP_INSPECT_FAILED" e >> fail (Error.inspect_step step.name e)
    if str_eq fingerprint step.proposed_fingerprint
        then step_transition j StepState.executing StepState.applied none
        else if str_eq fingerprint step.original_fingerprint
        then (if recovery && not effect.idempotent then fail (Error.cannot_retry step.name) else (do
          on_error (call effect.apply)
              λ e. mark_failed j "STEP_APPLY_FAILED" e >> fail (Error.apply_failed step.name e)
          verify_step j effect))
        else fail (Error.original_changed step.name)

  unfoldable pub apply_step : Journal W → Effect W → Bool → Action (At W) (Unit {0})
  unfolding apply_from
  apply_step j effect recovery c =
      if not (same_step_state c.step.state StepState.pending)
      then (err (Error.step_not_pending c.step.name), c)
      else apply_from j effect recovery c.step c

  -- One round of the loop in `rollback`, on a step that `continue` does not skip.
  unfoldable pub undo_from : Journal W → Effect W → StepRecord → Action (At W) (Unit {0})
  undo_from j effect step = do
    if same_step_state step.state StepState.rolling_back
        then return tt
        else step_transition j step.state StepState.rolling_back none
    fingerprint ← on_error (call effect.inspect) λ e. fail (Error.inspect_rollback step.name e)
    if str_eq fingerprint step.original_fingerprint then return tt else (do
      on_error (call effect.rollback) λ e. fail (Error.rollback_step_failed step.name e)
      again ← on_error (call effect.inspect) λ _. fail (Error.rollback_unverified step.name)
      if str_eq again step.original_fingerprint
          then return tt
          else fail (Error.rollback_unverified step.name))
    step_transition j StepState.rolling_back StepState.rolled_back none

  unfoldable pub rollback_step : Journal W → Effect W → Action (At W) (Unit {0})
  rollback_step j effect c =
      if skipped c.step.state then (ok tt, c) else undo_from j effect c.step c

  -- An error of `m` makes the operation fail and roll back; `stop` below ends it at once.
  abbrev pub or_roll_back : Action (At W) (Unit {0}) → Action (At W) (Option Error)
  or_roll_back m = branch m (λ e. return (some e)) λ _. return none

  -- The cases on the observed fingerprint in `recoverExecuting`.
  unfoldable pub reconcile_seen :
      Journal W → Effect W → StepRecord → String → Action (At W) (Option Error)
  reconcile_seen j effect step fingerprint =
      if str_eq fingerprint step.proposed_fingerprint
      then (step_transition j step.state StepState.applied none >> return none)
      else if str_eq fingerprint step.original_fingerprint && effect.idempotent
      then (do
        if same_step_state step.state StepState.failed
            then step_transition j StepState.failed StepState.executing none
            else return tt
        or_roll_back (do
          on_error (call effect.apply) λ e. fail (Error.retry_failed step.name e)
          verify_step j effect))
      else return (some (Error.ambiguous step.name))

  -- The case `StepExecuting, StepFailed` of `recoverExecuting`.
  unfoldable pub reconcile_from : Journal W → Effect W → StepRecord → Action (At W) (Option Error)
  reconcile_from j effect step =
      branch (call effect.inspect) (λ e. return (some (Error.inspect_step step.name e)))
        (reconcile_seen j effect step)

  unfoldable pub recover_by : StepState → Journal W → Effect W → Action (At W) (Option Error)
  unfolding apply_step reconcile_from
  recover_by StepState.applied j effect c = (ok none, c)
  recover_by StepState.pending j effect c = or_roll_back (apply_step j effect true) c
  recover_by StepState.executing j effect c = reconcile_from j effect c.step c
  recover_by StepState.failed j effect c = reconcile_from j effect c.step c
  recover_by state j effect c = (ok (some (Error.invalid_recovery_state c.step.name state)), c)

  -- One round of the loop in `recoverExecuting`: an `ok none` goes on to the next step, an
  -- `ok (some e)` calls `failAndRollback` with `e`, and an `err e` is `return err`.
  unfoldable pub recover_step : Journal W → Effect W → Action (At W) (Option Error)
  unfolding recover_by
  recover_step j effect c = recover_by c.step.state j effect c
