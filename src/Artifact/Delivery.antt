-- ===== src/Artifact/Delivery.antt =====
-- Consume hands out the plain text of a token once (src/internal/agent/artifact/service.go).
use wiregate.Prelude.{
  none, some, Bool, Option, ℕ, length, false, not, ◌==◌, ◌≡◌, refl, inl, inr, Fallible, success,
  failure, Bool-cases, ◌⊎◌,
}
use wiregate.Stdlib.Bytes.{Bytes}
use wiregate.Artifact.Tables.{
  Artifacts, ArtifactRecord, ArtifactError, begin_one_time_consume, finalize_one_time_consume,
}
use wiregate.Artifact.Service.{Cipher, Outcome, consume, deliver, finished, unavailable}
use wiregate.Artifact.Once.{UniqueHashes}
use wiregate.Artifact.Reuse.{Steps, none_yet, then_step, finalizes, claims_once}

-- The text that a run of Consume gave its consumer.
abbrev pub text_given : Outcome × Artifacts → Option Bytes
text_given r = r.0.given

abbrev pub tables_after : Outcome × Artifacts → Artifacts
tables_after r = r.1

steps_then : (s t u : Artifacts) → Steps s t → Steps t u → Steps s u
steps_then s t u p none_yet = p
steps_then s t u p (then_step v w past last) = then_step v u (steps_then s t v p past) last

finished-Steps :
    (o : Outcome) (u : Artifacts) (id : Bytes) (later : ℕ) (m : Fallible ArtifactError Artifacts)
    → finalize_one_time_consume id later u ≡ m
    → Steps u (finished o u m).1
finished-Steps o u id later (failure e) h = none_yet
finished-Steps o u id later (success v) h = then_step u v none_yet (finalizes id later h)

no_text : {text : Bytes} → none ≡ some text → ⊥
no_text h = cc

begin_cases :
    (m : Fallible ArtifactError (ArtifactRecord × Artifacts))
    → ((e : ArtifactError) × (m ≡ failure e)) ⊎ ((q : ArtifactRecord × Artifacts) × (m ≡ success q))
begin_cases (failure e) = inl (e, refl)
begin_cases (success q) = inr (q, refl)

-- Where Consume gave a text, a claim succeeded, and steps of the repository lead on.
consumed :
    (c : Cipher) (token : Bytes) (consumer : Bytes → Bool) (now later : ℕ) (s : Artifacts)
    (text : Bytes)
    → text_given (consume c token consumer now later s) ≡ some text
    → (not (length token == 32) ≡ false)
      × ((q : ArtifactRecord) × (t : Artifacts) × (begin_one_time_consume (c.hash_token token) now s
            ≡ success (q, t))
          × Steps t (tables_after (consume c token consumer now later s)))
unfolding consume
consumed c token consumer now later s text h = elim (Bool-cases (not (length token == 32))) [
  | inl e ↦ absurd (no_text (rw e at h))
  | inr e ↦ elim (begin_cases (begin_one_time_consume (c.hash_token token) now s)) [
    | inl (x, f) ↦ absurd (no_text (rw (f, consume) at (rw e at h)))
    | inr ((q, t), f) ↦ (
      e,
      (
        q,
        t,
        f,
        rw e (
            rw (f, consume)
              (finished-Steps (deliver c consumer q) t q.id later
                (finalize_one_time_consume q.id later t) refl)),
      ),
    )
  ]
]

-- After Consume gave the plain text of a token to its consumer, no later Consume with the token
-- gives anything or changes anything, whatever the consumer answered and whatever the repository
-- does in between. Hashes of tokens are a key of the table.
pub consume_once :
    (c : Cipher) (token : Bytes) (consumer again : Bytes → Bool) (now later next last : ℕ)
    (s u : Artifacts) (text : Bytes)
    → UniqueHashes s.artifacts
    → text_given (consume c token consumer now later s) ≡ some text
    → Steps (tables_after (consume c token consumer now later s)) u
    → consume c token again next last u ≡ (unavailable, u)
unfolding consume
consume_once c token consumer again now later next last s u text unique h past =
    let (sized, (q, t, begun, on)) = consumed c token consumer now later s text h in
    let refused =
      claims_once (c.hash_token token) now next s t u q unique begun
        (steps_then t (tables_after (consume c token consumer now later s)) u on past) in
    rw sized (rw (refused, consume) refl)
