-- ===== src/Operation/Ends.antt =====
-- What a step is like when a function on it succeeds. Only the last action counts.
use wiregate.Prelude.{
  refl, Bool, Option, if◌then◌else◌, ◌≡◌, true, false, inl, ap, inr, ◌⊎◌, arith, none, some,
}
use wiregate.Operation.Action.{
  Error, Action, fail, branch, ◌>>=◌, Result, ok, err, Done, ◌>>◌, return,
}
use wiregate.Operation.Step.{
  step_transition, Journal, At, Failure, Effect, verify_step, call, apply_step, verify_from,
  apply_from, StepRecord, set_state, undo_from, rollback_step, skipped, recover_step, recover_by,
  or_roll_back, reconcile_from, reconcile_seen,
}
use wiregate.Operation.State.{StepState}
use wiregate.Operation.Transition.{step_transition_cases}

pub record Ends {S A : Type 0} (Q : A → S → Type 0) (m : Action S A) : Type 0 where
  pub at : (s : S) (a : A) → (m s).0 ≡ ok a → Q a (m s).1

module _ {S A : Type 0} (Q : A → S → Type 0) where
  pub Ends-fail : (e : Error) → Ends Q (fail {S = S} {A = A} e)
  Ends-fail e = record { at = λ s a h. cc }

  ends-bind :
      {B : Type 0} (f : B → Action S A) (p : Result B × S) (a : A) (s : S)
      → ((b : B) → Ends Q (f b))
      → (◌>>=◌ (λ _. p) f s).0 ≡ ok a
      → Q a (◌>>=◌ (λ _. p) f s).1
  ends-bind f (ok b, t) a s hf h = (hf b).at t a h
  ends-bind f (err e, t) a s hf h = cc

  pub Ends-bind :
      {B : Type 0} (m : Action S B) (f : B → Action S A)
      → ((b : B) → Ends Q (f b))
      → Ends Q (m >>= f)
  Ends-bind m f hf = record { at = λ s a h. ends-bind f (m s) a s hf h }

  ends-branch :
      {B : Type 0} (handler : Error → Action S A) (f : B → Action S A) (p : Result B × S) (a : A)
      (s : S)
      → ((e : Error) → Ends Q (handler e))
      → ((b : B) → Ends Q (f b))
      → (branch (λ _. p) handler f s).0 ≡ ok a
      → Q a (branch (λ _. p) handler f s).1
  ends-branch handler f (ok b, t) a s hh hf h = (hf b).at t a h
  ends-branch handler f (err e, t) a s hh hf h = (hh e).at t a h

  pub Ends-branch :
      {B : Type 0} (m : Action S B) (handler : Error → Action S A) (f : B → Action S A)
      → ((e : Error) → Ends Q (handler e))
      → ((b : B) → Ends Q (f b))
      → Ends Q (branch m handler f)
  Ends-branch m handler f hh hf = record { at = λ s a h. ends-branch handler f (m s) a s hh hf h }

  pub Ends-if : (b : Bool) (m k : Action S A) → Ends Q m → Ends Q k → Ends Q (if b then m else k)
  Ends-if true m k hm hk = hm
  Ends-if false m k hm hk = hk

  pub ends-if :
      (b : Bool) (p q : Result A × S) (a : A)
      → (b ≡ true → p.0 ≡ ok a → Q a p.1)
      → (q.0 ≡ ok a → Q a q.1)
      → (if b then p else q).0 ≡ ok a
      → Q a (if b then p else q).1
  ends-if true p q a hp hq h = hp refl h
  ends-if false p q a hp hq h = hq h

-- A step that is pending has had no effect on the host, and a rolled back one has none left.
abbrev pub IsSettled : StepState → Type 0
IsSettled s = (s ≡ StepState.pending) ⊎ (s ≡ StepState.rolled_back)

skipped-IsSettled : (s : StepState) → skipped s ≡ true → IsSettled s
skipped-IsSettled s h = ground arith

module _ {W : Type 0} where
  abbrev pub StateIs : StepState → Unit {0} → At W → Type 0
  StateIs state _ c = c.step.state ≡ state

  moved-Ends :
      (to : StepState) (p : Done × W) (c : At W) (a : Unit {0})
      → ((call (λ _. p) >> set_state to) c).0 ≡ ok a
      → StateIs to a ((call (λ _. p) >> set_state to) c).1
  moved-Ends to (ok _, w) c a h = refl
  moved-Ends to (err _, w) c a h = cc

  pub step_transition-Ends :
      (j : Journal W) (from to : StepState) (failure : Option Failure)
      → Ends (StateIs to) (step_transition j from to failure)
  step_transition-Ends j from to failure = record {
    at = λ c a h. elim (step_transition_cases j from to failure c) [
      | inl (e, refused) ↦ absurd (cc (ap (λ (p : Done × At W). p.0) refused, h))
      | inr (_, _, asked) ↦
          rw asked (
            moved-Ends to (j.transition_step c.step.id from to failure c.world) c a (rw asked at h))
    ];
  }

  module _ (j : Journal W) (effect : Effect W) where
    ruleset rules = (Ends-fail, Ends-bind, Ends-branch, Ends-if, step_transition-Ends)

    -- A call of an effect that must have gone well may be followed by anything.
    verify_from-Ends :
        (step : StepRecord) → Ends (StateIs StepState.applied) (verify_from j effect step)
    unfolding verify_from
    verify_from-Ends step = search rules depth 9

    verify_step-Ends : Ends (StateIs StepState.applied) (verify_step j effect)
    unfolding verify_step
    verify_step-Ends = record { at = λ c. (verify_from-Ends c.step).at c }

    apply_from-Ends :
        (recovery : Bool) (step : StepRecord)
        → Ends (StateIs StepState.applied) (apply_from j effect recovery step)
    unfolding apply_from
    apply_from-Ends recovery step = search (rules, verify_step-Ends) depth 12

    pub apply_step-Ends :
        (recovery : Bool) → Ends (StateIs StepState.applied) (apply_step j effect recovery)
    unfolding apply_step
    apply_step-Ends recovery = record {
      at = λ c a.
          ends-if (StateIs StepState.applied) _ (err (Error.step_not_pending c.step.name), c) _ a
            (λ h. cc) ((apply_from-Ends recovery c.step).at c a);
    }

    undo_from-Ends :
        (step : StepRecord) → Ends (StateIs StepState.rolled_back) (undo_from j effect step)
    unfolding undo_from
    undo_from-Ends step = search rules depth 9

    pub rollback_step-Ends : Ends (λ _ c. IsSettled c.step.state) (rollback_step j effect)
    unfolding rollback_step
    rollback_step-Ends = record {
      at = λ c a.
          ends-if (λ _ c'. IsSettled c'.step.state) (skipped c.step.state) _ _ a
            (λ e h. skipped-IsSettled c.step.state e) (λ h. inr ((undo_from-Ends c.step).at c a h));
    }

  -- A step that recovery goes on from is applied.
  abbrev pub Continues : Option Error → At W → Type 0
  Continues outcome c = outcome ≡ none → c.step.state ≡ StepState.applied

  then_none-at :
      (p : Done × At W) (c : At W) (a : Option Error)
      → (p.0 ≡ ok tt → p.1.step.state ≡ StepState.applied)
      → (◌>>◌ {B = Option Error} (λ _. p) (return none) c).0 ≡ ok a
      → Continues a (◌>>◌ {B = Option Error} (λ _. p) (return none) c).1
  then_none-at (ok tt, t) c a hp h _ = hp refl
  then_none-at (err e, t) c a hp h _ = cc

  then_none-Ends :
      (m : Action (At W) (Unit {0}))
      → Ends (StateIs StepState.applied) m
      → Ends Continues (m >> return none)
  then_none-Ends m hm = record { at = λ s a. then_none-at (m s) s a (hm.at s tt) }

  or_roll_back-at :
      (p : Done × At W) (c : At W) (a : Option Error)
      → (p.0 ≡ ok tt → p.1.step.state ≡ StepState.applied)
      → (or_roll_back (λ _. p) c).0 ≡ ok a
      → Continues a (or_roll_back (λ _. p) c).1
  or_roll_back-at (ok tt, t) c a hp h _ = hp refl
  or_roll_back-at (err e, t) c a hp h k = cc

  or_roll_back-Ends :
      (m : Action (At W) (Unit {0}))
      → Ends (StateIs StepState.applied) m
      → Ends Continues (or_roll_back m)
  or_roll_back-Ends m hm = record { at = λ s a. or_roll_back-at (m s) s a (hm.at s tt) }

  Ends-some : (e : Error) → Ends Continues (return (some e))
  Ends-some e = record { at = λ s a h k. cc }

  module _ (j : Journal W) (effect : Effect W) where
    reconcile_from-Ends : (step : StepRecord) → Ends Continues (reconcile_from j effect step)
    unfolding reconcile_from reconcile_seen
    reconcile_from-Ends step =
        search
          (
            Ends-bind, Ends-branch, Ends-if, Ends-some, then_none-Ends, step_transition-Ends,
            or_roll_back-Ends, verify_step-Ends,
          )
          depth 9

    recover_by-Ends :
        (s : StepState) (c : At W) (a : Option Error)
        → c.step.state ≡ s
        → (recover_by s j effect c).0 ≡ ok a
        → Continues a (recover_by s j effect c).1
    unfolding recover_by
    recover_by-Ends StepState.applied c a e h k = e
    recover_by-Ends StepState.pending c a e h k =
        (or_roll_back-Ends (apply_step j effect true) (apply_step-Ends j effect true)).at c a h k
    recover_by-Ends StepState.executing c a e h k = (reconcile_from-Ends c.step).at c a h k
    recover_by-Ends StepState.failed c a e h k = (reconcile_from-Ends c.step).at c a h k
    recover_by-Ends StepState.rolling_back c a e h k = cc
    recover_by-Ends StepState.rolled_back c a e h k = cc

    pub recover_step-Ends : Ends Continues (recover_step j effect)
    unfolding recover_step
    recover_step-Ends = record { at = λ c a. recover_by-Ends c.step.state c a refl }
