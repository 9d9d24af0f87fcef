-- ===== src/Store/Journal.antt =====
-- The repository as the journal of the engine, beside the host that the effects act on.
use wiregate.Prelude.{ℕ, Option, none, some, Fallible, success, failure}
use wiregate.Operation.Action.{Error, ok, err, Done, Result}
use wiregate.Operation.Step.{Journal, Effect}
use wiregate.Store.Tables.{Store, StoreError}
use wiregate.Store.Operations

pub record World (H : Type 0) : Type 0 where
  pub store : Store
  pub host : H

module _ {H : Type 0} where
  -- The error of the repository is one that the engine does not look into.
  abbrev pub answer : World H → Fallible StoreError Store → Done × World H
  answer w (failure e) = (err (Error.external "transition"), w)
  answer w (success u) = (ok tt, record w { store = u })

  -- The journal that the repository is, with the time that a clock of the host shows.
  unfoldable pub journal : (H → ℕ) → Journal (World H)
  journal clock = record {
    transition_operation = λ id from to failed w.
        answer w (Operations.transition_operation id from to failed (clock w.host) w.store);
    transition_step = λ id from to failed w.
        answer w (Operations.transition_step id from to failed (clock w.host) w.store);
  }

  -- A call of the host leaves the store alone.
  abbrev pub on_host : {A : Type 0} → (H → Result A × H) → World H → Result A × World H
  on_host f w = let (r, h) = f w.host in (r, record w { host = h })

  unfoldable pub hosted : Effect H → Effect (World H)
  hosted e = record {
    name = e.name;
    inspect = on_host e.inspect;
    apply = on_host e.apply;
    rollback = on_host e.rollback;
    idempotent = e.idempotent;
  }

  abbrev pub hosted_verify : Option (H → Done × H) → Option (World H → Done × World H)
  hosted_verify none = none
  hosted_verify (some v) = some (on_host v)
