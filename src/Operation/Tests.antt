-- ===== src/Operation/Tests.antt =====
-- The engine on a host that is one text, its own fingerprint.
use wiregate.Prelude.{refl, [], ◌∷◌, none, Bool, String, List, true, ◌≡◌, All, map, inr, false, ◌↔◌}
use wiregate.Operation.Action.{ok, err, Done}
use wiregate.Operation.State.{
  State, StepState, is_terminal, valid_operation_transition, terminal_iff,
}
use wiregate.Operation.Results.{IsReliable}
use wiregate.Operation.Step.{
  Journal, StepRecord, Effect, apply_step, step_transition, verify_step, recover_step,
  reconcile_seen,
}
use wiregate.Operation.Engine.{
  execute, recover, execute_steps, execute_body, recover_from, recover_executing, recover_rest,
  recover_outcome,
}
use wiregate.Operation.Plan.{validate_plan}
use wiregate.Operation.Rollback.{Run, operation_transition}
use wiregate.Operation.Commit.{IsApplied}
use wiregate.Operation.Guarantees.{
  execute_commits, Ending, Completion, recover-IsFinished, recover-Ending, execute-Completion,
}
use wiregate.Operation.Recovered.{IsFinished, IsCoherent}
use wiregate.Operation.History.{OperationFollows, recover-Follows, execute-Follows}
use wiregate.Operation.Stuck.{stop, recover_stuck}
use wiregate.Operation.Retry.{with_apply, recover-ignores-apply}
use wiregate.Operation.Loops.{apply_steps, recover_steps}

abbrev writer : Bool → Effect String
writer idempotent = record {
  name = "write";
  inspect = λ w. (ok w, w);
  apply = λ w. (ok tt, "new");
  rollback = λ w. (ok tt, "old");
  idempotent = idempotent;
}

abbrev accepting : Journal String
accepting = record {
  transition_operation = λ id from to f w. (ok tt, w);
  transition_step = λ id from to f w. (ok tt, w);
}

abbrev step : StepState → StepRecord
step state = record {
  id = "s1";
  order = 1;
  name = "write";
  kind = "file";
  state = state;
  original_fingerprint = "old";
  proposed_fingerprint = "new";
  error_redacted = "";
}

abbrev run : State → StepState → String → Run String
run state step_state w = record {
  operation = record { id = "op"; state = state; steps = step step_state ∷ [] };
  world = w;
}

abbrev effects : Bool → List (Effect String)
effects idempotent = writer idempotent ∷ []

accepting-IsReliable : IsReliable accepting
accepting-IsReliable = record {
  operations = λ id from to f w. refl;
  steps = λ id from to f w. refl;
}

plan_ok :
    (state : State) (s : StepState) (w : String)
    → validate_plan (run state s w).operation (effects true) ≡ none
unfolding validate_plan
plan_ok state s w = refl

abbrev fresh : Run String
fresh = run State.snapshotted StepState.pending "old"

execute_succeeds : (execute accepting (effects true) none fresh).0 ≡ ok tt
unfolding execute validate_plan execute_steps operation_transition execute_body apply_steps
    apply_step step_transition verify_step
execute_succeeds = refl

execute_commits_example :
    let (_, s) = execute accepting (effects true) none fresh in
    (s.operation.state ≡ State.committed) × All IsApplied s.operation.steps
execute_commits_example = execute_commits accepting (effects true) none fresh execute_succeeds

execute-Completion_example : Completion (execute accepting (effects true) none fresh)
execute-Completion_example =
    execute-Completion accepting (effects true) none fresh accepting-IsReliable
      (plan_ok State.snapshotted StepState.pending "old") refl

execute-Follows_example :
    OperationFollows fresh.operation (execute accepting (effects true) none fresh).1.operation
execute-Follows_example = execute-Follows accepting (effects true) none fresh

-- A crash came after the effect and before its step was marked as applied.
abbrev crashed : Run String
crashed = run State.executing StepState.executing "new"

crashed-IsCoherent :
    (step_state : StepState) (w : String) → IsCoherent (run State.executing step_state w).operation
crashed-IsCoherent step_state w = record { verified = λ h. cc; applied = λ h. cc; undone = λ h. cc }

recover-Follows_example :
    OperationFollows crashed.operation (recover accepting (effects true) none crashed).1.operation
recover-Follows_example = recover-Follows accepting (effects true) none crashed

recover_succeeds : (recover accepting (effects true) none crashed).0 ≡ ok tt
unfolding recover validate_plan recover_from recover_executing recover_rest recover_steps
    recover_step reconcile_seen step_transition recover_outcome operation_transition
recover_succeeds = refl

recover-IsFinished_example : IsFinished (recover accepting (effects true) none crashed).1
recover-IsFinished_example =
    recover-IsFinished accepting (effects true) none crashed
      (crashed-IsCoherent StepState.executing "new") recover_succeeds

recover-Ending_example : Ending (recover accepting (effects true) none crashed)
recover-Ending_example =
    recover-Ending accepting (effects true) none crashed accepting-IsReliable
      (plan_ok State.executing StepState.executing "new")
      (crashed-IsCoherent StepState.executing "new") ((λ h. cc), tt) (λ h. cc)

-- The verification of the step failed after its effect had taken place, and then came a crash.
abbrev half_failed : Run String
half_failed = run State.executing StepState.failed "new"

recover_stuck_example :
    let (r, s) = recover accepting (effects true) none half_failed in
    (r ≡ err stop) × (s.operation ≡ half_failed.operation)
recover_stuck_example =
    recover_stuck accepting (effects true) none half_failed
      (plan_ok State.executing StepState.failed "new") refl (inr (refl, ("new", refl)))

-- An Apply that would ruin the host.
abbrev ruin : String → Done × String
ruin w = (ok tt, "ruined")

recover-ignores-apply_example :
    recover accepting (map (with_apply ruin) (effects false)) none crashed
    ≡ recover accepting (effects false) none crashed
recover-ignores-apply_example =
    recover-ignores-apply ruin accepting (effects false) (refl, tt) none crashed

terminal_iff_example :
    (is_terminal State.expired ≡ true)
    ↔ ((to : State) → valid_operation_transition State.expired to ≡ false)
terminal_iff_example = terminal_iff State.expired
