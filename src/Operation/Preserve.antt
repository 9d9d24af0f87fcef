-- ===== src/Operation/Preserve.antt =====
-- Rules by which an action keeps a reflexive and transitive relation between its states.
use wiregate.Prelude.{Bool, true, false, if◌then◌else◌}
use wiregate.Operation.Action.{
  Error, Result, ok, err, Action, return, fail, ◌>>=◌, on_error, branch, ignore,
}

pub record Preserves {S A : Type 0} (R : S → S → Type 0) (m : Action S A) : Type 0 where
  pub at : (s : S) → R s (m s).1

pub record IsPreorder {S : Type 0} (R : S → S → Type 0) : Type 0 where
  pub here : (s : S) → R s s
  pub chain : {s t u : S} → R s t → R t u → R s u

module _ {S : Type 0} (R : S → S → Type 0) (o : IsPreorder R) where
  pub Preserves-return : {A : Type 0} (a : A) → Preserves R (return {S = S} a)
  Preserves-return a = record { at = λ s. o.here s }

  pub Preserves-fail : {A : Type 0} (e : Error) → Preserves R (fail {S = S} {A = A} e)
  Preserves-fail e = record { at = λ s. o.here s }

  at-bind :
      {A B : Type 0} (f : A → Action S B)
      → ((a : A) → Preserves R (f a))
      → (s : S) (p : Result A × S) → R s p.1
      → R s (◌>>=◌ (λ _. p) f s).1
  at-bind f pf s (ok a, t) h = o.chain h ((pf a).at t)
  at-bind f pf s (err e, t) h = h

  pub Preserves-bind :
      {A B : Type 0} (m : Action S A) (f : A → Action S B)
      → Preserves R m
      → ((a : A) → Preserves R (f a))
      → Preserves R (m >>= f)
  Preserves-bind m f pm pf = record { at = λ s. at-bind f pf s (m s) (pm.at s) }

  at-branch :
      {A B : Type 0} (handler : Error → Action S B) (rest : A → Action S B)
      → ((e : Error) → Preserves R (handler e))
      → ((a : A) → Preserves R (rest a))
      → (s : S) (p : Result A × S) → R s p.1
      → R s (branch (λ _. p) handler rest s).1
  at-branch handler rest ph pr s (ok a, t) h = o.chain h ((pr a).at t)
  at-branch handler rest ph pr s (err e, t) h = o.chain h ((ph e).at t)

  pub Preserves-branch :
      {A B : Type 0} (m : Action S A) (handler : Error → Action S B) (rest : A → Action S B)
      → Preserves R m
      → ((e : Error) → Preserves R (handler e))
      → ((a : A) → Preserves R (rest a))
      → Preserves R (branch m handler rest)
  Preserves-branch m handler rest pm ph pr = record {
    at = λ s. at-branch handler rest ph pr s (m s) (pm.at s);
  }

  at-on_error :
      {A : Type 0} (handler : Error → Action S A)
      → ((e : Error) → Preserves R (handler e))
      → (s : S) (p : Result A × S) → R s p.1
      → R s (on_error (λ _. p) handler s).1
  at-on_error handler ph s (ok a, t) h = h
  at-on_error handler ph s (err e, t) h = o.chain h ((ph e).at t)

  pub Preserves-on_error :
      {A : Type 0} (m : Action S A) (handler : Error → Action S A)
      → Preserves R m
      → ((e : Error) → Preserves R (handler e))
      → Preserves R (on_error m handler)
  Preserves-on_error m handler pm ph = record { at = λ s. at-on_error handler ph s (m s) (pm.at s) }

  pub Preserves-ignore : {A : Type 0} (m : Action S A) → Preserves R m → Preserves R (ignore m)
  Preserves-ignore m pm = record { at = λ s. pm.at s }

  pub Preserves-if :
      {A : Type 0} (b : Bool) (m k : Action S A)
      → Preserves R m
      → Preserves R k
      → Preserves R (if b then m else k)
  Preserves-if true m k pm pk = pm
  Preserves-if false m k pm pk = pk
