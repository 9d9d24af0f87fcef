-- ===== src/Operation/Triple.antt =====
-- Assertions about an action: from a state that satisfies `P` it ends well in one that satisfies
-- `Q`, or with an error in one that satisfies `E`.
use wiregate.Operation.Action.{
  Error, Action, return, on_error, Result, ◌>>=◌, fail, branch, ok, err,
}

abbrev pub Outcome :
    {S A : Type 0} → (A → S → Type 0) → (Error → S → Type 0) → Result A × S → Type 0
Outcome Q E (ok a, s) = Q a s
Outcome Q E (err e, s) = E e s

pub record Triple {S A : Type 0} (P : S → Type 0) (m : Action S A) (Q : A → S → Type 0)
    (E : Error → S → Type 0) : Type 0 where
  pub from : (s : S) → P s → Outcome Q E (m s)

module _ {S : Type 0} where
  bind-from :
      {A B : Type 0} {Q : A → S → Type 0} {Q' : B → S → Type 0} {E : Error → S → Type 0}
      (f : A → Action S B)
      → ((a : A) → Triple (Q a) (f a) Q' E)
      → (s : S) (p : Result A × S) → Outcome Q E p
      → Outcome Q' E (◌>>=◌ (λ _. p) f s)
  bind-from f h s (ok a, t) q = (h a).from t q
  bind-from f h s (err e, t) q = q

  pub Triple-bind :
      {A B : Type 0} {P : S → Type 0} (Q : A → S → Type 0) {Q' : B → S → Type 0}
      {E : Error → S → Type 0} (m : Action S A) (f : A → Action S B)
      → Triple P m Q E
      → ((a : A) → Triple (Q a) (f a) Q' E)
      → Triple P (m >>= f) Q' E
  Triple-bind Q m f hm hf = record { from = λ s p. bind-from f hf s (m s) (hm.from s p) }

  branch-from :
      {A B : Type 0} {Q : A → S → Type 0} {Q' : B → S → Type 0} {E E' : Error → S → Type 0}
      (handler : Error → Action S B) (rest : A → Action S B)
      → ((e : Error) → Triple (E' e) (handler e) Q' E)
      → ((a : A) → Triple (Q a) (rest a) Q' E)
      → (s : S) (p : Result A × S) → Outcome Q E' p
      → Outcome Q' E (branch (λ _. p) handler rest s)
  branch-from handler rest hh hr s (ok a, t) q = (hr a).from t q
  branch-from handler rest hh hr s (err e, t) q = (hh e).from t q

  pub Triple-branch :
      {A B : Type 0} {P : S → Type 0} (Q : A → S → Type 0) (E' : Error → S → Type 0)
      {Q' : B → S → Type 0} {E : Error → S → Type 0} (m : Action S A) (handler : Error → Action S B)
      (rest : A → Action S B)
      → Triple P m Q E'
      → ((e : Error) → Triple (E' e) (handler e) Q' E)
      → ((a : A) → Triple (Q a) (rest a) Q' E)
      → Triple P (branch m handler rest) Q' E
  Triple-branch Q E' m handler rest hm hh hr = record {
    from = λ s p. branch-from handler rest hh hr s (m s) (hm.from s p);
  }

  on_error-from :
      {A : Type 0} {Q : A → S → Type 0} {E E' : Error → S → Type 0} (handler : Error → Action S A)
      → ((e : Error) → Triple (E' e) (handler e) Q E)
      → (s : S) (p : Result A × S) → Outcome Q E' p
      → Outcome Q E (on_error (λ _. p) handler s)
  on_error-from handler hh s (ok a, t) q = q
  on_error-from handler hh s (err e, t) q = (hh e).from t q

  pub Triple-on_error :
      {A : Type 0} {P : S → Type 0} (E' : Error → S → Type 0) {Q : A → S → Type 0}
      {E : Error → S → Type 0} (m : Action S A) (handler : Error → Action S A)
      → Triple P m Q E'
      → ((e : Error) → Triple (E' e) (handler e) Q E)
      → Triple P (on_error m handler) Q E
  Triple-on_error E' m handler hm hh = record {
    from = λ s p. on_error-from handler hh s (m s) (hm.from s p);
  }

  pub Triple-fail :
      {A : Type 0} {P : S → Type 0} {Q : A → S → Type 0} {E : Error → S → Type 0} (e : Error)
      → ((s : S) → P s → E e s)
      → Triple P (fail e) Q E
  Triple-fail e h = record { from = h }

  pub Triple-return :
      {A : Type 0} {P : S → Type 0} {Q : A → S → Type 0} {E : Error → S → Type 0} (a : A)
      → ((s : S) → P s → Q a s)
      → Triple P (return a) Q E
  Triple-return a h = record { from = h }

  -- A weaker precondition, and stronger postconditions.
  weaken :
      {A : Type 0} {Q Q' : A → S → Type 0} {E E' : Error → S → Type 0}
      → ((a : A) (s : S) → Q a s → Q' a s)
      → ((e : Error) (s : S) → E e s → E' e s)
      → (p : Result A × S) → Outcome Q E p
      → Outcome Q' E' p
  weaken hq he (ok a, s) q = hq a s q
  weaken hq he (err e, s) q = he e s q

  pub Triple-weaken :
      {A : Type 0} {P P' : S → Type 0} {Q Q' : A → S → Type 0} {E E' : Error → S → Type 0}
      {m : Action S A}
      → Triple P m Q E
      → ((s : S) → P' s → P s)
      → ((a : A) (s : S) → Q a s → Q' a s)
      → ((e : Error) (s : S) → E e s → E' e s)
      → Triple P' m Q' E'
  Triple-weaken {m} h hp hq he = record { from = λ s p. weaken hq he (m s) (h.from s (hp s p)) }
