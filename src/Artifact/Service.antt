-- ===== src/Artifact/Service.antt =====
-- Create and Consume of src/internal/agent/artifact/service.go. The hash of a token, the master keys and the
-- opening of an envelope are parameters, as is the sealing under random
-- values that were drawn; the consumer, which is called with the plain text, answers
-- whether it succeeded. The finalizer runs after every claim, and its error comes last.
use wiregate.Prelude.{
  ◌>>=◌, reject, ◌||◌, ◌+◌, Bool, Option, none, some, length, ℕ, ◌==◌, Fallible, success, failure,
  not, if◌then◌else◌,
}
use wiregate.Stdlib.Bytes.{Bytes}
use wiregate.Artifact.Tables.{
  create_one_time, Artifacts, ArtifactRecord, ArtifactError, SecretContext, Envelope,
  begin_one_time_consume, finalize_one_time_consume,
}

pub record Cipher : Type 0 where
  pub hash_token : Bytes → Bytes
  pub master_key : ℕ → Option Bytes
  pub open_envelope : Bytes → SecretContext → Envelope → Option Bytes

-- What the consumer was given, if it was called, and the answer of Consume.
pub record Outcome : Type 0 where
  pub given : Option Bytes
  pub answer : Fallible ArtifactError Unit

-- The body after the claim.
unfoldable pub deliver : Cipher → (Bytes → Bool) → ArtifactRecord → Outcome
deliver c consumer r = elim (c.master_key r.content.key_version) [
  | none ↦ record { given = none; answer = failure ArtifactError.key_error }
  | some master ↦ elim (c.open_envelope master r.context r.content) [
    | none ↦ record { given = none; answer = failure ArtifactError.open_error }
    | some text ↦ record {
      given = some text;
      answer = if consumer text then success tt else failure ArtifactError.consumer_error;
    }
  ]
]

-- The deferred finalizer: its error shows only if there was none before, and the row then stays
-- as it is.
abbrev pub finished : Outcome → Artifacts → Fallible ArtifactError Artifacts → Outcome × Artifacts
finished o s (success u) = (o, u)
finished o s (failure e) =
    (elim o.answer [ failure f ↦ o | success _ ↦ record o { answer = failure e } ], s)

abbrev pub unavailable : Outcome
unavailable = record { given = none; answer = failure ArtifactError.unavailable }

unfoldable pub consume : Cipher → Bytes → (Bytes → Bool) → ℕ → ℕ → Artifacts → Outcome × Artifacts
unfolding begin_one_time_consume deliver finalize_one_time_consume
consume c token consumer now later s =
    if not (length token == 32)
    then (unavailable, s)
    else (elim (begin_one_time_consume (c.hash_token token) now s) [
      | failure _ ↦ (unavailable, s)
      | success (r, u) ↦ finished (deliver c consumer r) u (finalize_one_time_consume r.id later u)
    ])

abbrev pub or_error : {A : Type 0} → Option A → ArtifactError → Fallible ArtifactError A
or_error none e = failure e
or_error (some a) e = success a

-- The clock is read by the service and again by the repository; `key` is the version of the
-- service, and the token and the identifiers are drawn.
unfoldable pub create :
    Cipher
    → (Bytes → ℕ → SecretContext → Bytes → Option Envelope)
    → ℕ
    → Bytes
    → SecretContext
    → Bytes
    → ℕ
    → Bytes
    → Bytes
    → Bytes
    → ℕ
    → ℕ
    → Artifacts
    → Fallible ArtifactError Artifacts
unfolding create_one_time
create c seal key peer context payload ttl token envelope_id id asked now s = do
  _ ← reject (length peer == 0 || ttl == 0) ArtifactError.invalid_artifact
  master ← or_error (c.master_key key) ArtifactError.key_error
  envelope ← or_error (seal master key context payload) ArtifactError.seal_error
  create_one_time envelope_id id now peer context envelope (c.hash_token token) (asked + ttl) s
