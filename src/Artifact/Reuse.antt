-- ===== src/Artifact/Reuse.antt =====
-- No second claim by a token, whatever comes between
-- (src/internal/agent/repository/secret_store.go).
use wiregate.Prelude.{
  if_both, if◌then◌else◌, [], ◌∷◌, some, Bool, List, ℕ, All, true, false, ◌||◌, ◌&&◌, ltb, ◌≡◌,
  refl, inl, inr, success, failure, Bool-cases, arith, subst, sym, ◌∙◌,
}
use wiregate.Stdlib.Bytes.{Bytes, same}
use wiregate.Stdlib.Same.{same_refl, same-eq}
use wiregate.Stdlib.Rows.{
  rows_where, select_row, update_rows, any_row, select_row-none, select_row-All, some_eq,
}
use wiregate.Artifact.Tables.{
  ArtifactRow, ArtifactRecord, Artifacts, ArtifactError, SecretContext, Envelope, is_ready,
  create_one_time, is_claimable, is_ready_row, claim, begin_one_time_consume,
  finalize_one_time_consume, cleanup_one_time, is_stale,
}
use wiregate.Artifact.Once.{
  update-known, UniqueHashes, IsSpent, Keeps, begin-found, create_one_time-Keeps, finalize-Keeps,
  cleanup_rows-Keeps, updated-Keeps, claim-Retires, claimable-hash, hash_differs, and_not,
}

or_left : (a b : Bool) → a ≡ true → a || b ≡ true
or_left a b h = ground arith

or_right : (a b : Bool) → b ≡ true → a || b ≡ true
or_right a b h = ground arith

regrouped : (a b c : Bool) → a && b ≡ false → a && (b && c) ≡ false
regrouped a b c h = ground arith

own_row : (x : ArtifactRow) → is_ready x.state ≡ true → is_ready_row x.artifact_id x ≡ true
unfolding is_ready_row
own_row x h = rw (same_refl x.artifact_id) h

selected-known :
    (hash : Bytes) (now : ℕ) (rs : List ArtifactRow) (r : ArtifactRow)
    → select_row (is_claimable hash now) rs ≡ some r
    → any_row (λ x. same x.token_hash hash) rs ≡ true
selected-known hash now [] r h = cc
selected-known hash now (x ∷ rs) r h = elim (Bool-cases (is_claimable hash now x)) [
  | inl e ↦ or_left _ _ (claimable-hash hash now x e).0
  | inr e ↦ or_right _ _ (selected-known hash now rs r (rw e at h))
]

left_false : (a b : Bool) → a ≡ false → a && b ≡ false
left_false a b h = ground arith

-- No row of another hash has this one.
others-spent :
    (hash id : Bytes) (x : ArtifactRow) (rs : List ArtifactRow)
    → same x.token_hash hash ≡ true
    → All (λ y. same y.token_hash x.token_hash ≡ false) rs
    → All
        (λ y. same y.token_hash hash && is_ready y.state ≡ false)
        (update_rows (is_ready_row id) claim rs)
others-spent hash id x [] e all = tt
others-spent hash id x (y ∷ rs) e all =
    let apart : same y.token_hash hash ≡ false =
      subst (λ t. same y.token_hash t ≡ false) (same-eq x.token_hash hash e) all.0 in
    (
      if_both (λ z. same z.token_hash hash && is_ready z.state ≡ false) (is_ready_row id y)
          (claim y) y (left_false (same y.token_hash hash) _ apart)
          (left_false (same y.token_hash hash) _ apart),
      others-spent hash id x rs e all.1,
    )

spent-after :
    (hash : Bytes) (now : ℕ) (rs : List ArtifactRow) (r : ArtifactRow)
    → UniqueHashes rs
    → select_row (is_claimable hash now) rs ≡ some r
    → All
        (λ x. same x.token_hash hash && is_ready x.state ≡ false)
        (update_rows (is_ready_row r.artifact_id) claim rs)
unfolding UniqueHashes
spent-after hash now [] r u h = tt
spent-after hash now (x ∷ rs) r u h = elim (Bool-cases (is_claimable hash now x)) [
  | inl e ↦
      let (hit, is_open) = claimable-hash hash now x e in
      subst
        (λ y.
          All (λ z. same z.token_hash hash && is_ready z.state ≡ false)
            (update_rows (is_ready_row y.artifact_id) claim (x ∷ rs)))
        (some_eq x r (rw e at h))
        (
          subst
              (λ b.
                same (if b then claim x else x).token_hash hash
                  && is_ready (if b then claim x else x).state
                ≡ false)
              (sym (own_row x is_open)) (and_not (same x.token_hash hash) false refl),
          others-spent hash x.artifact_id x rs hit u.0,
        )
  | inr e ↦
      let found : select_row (is_claimable hash now) rs ≡ some r = rw e at h in
      let (claimable, apart) =
        select_row-All (is_claimable hash now) (λ y. same y.token_hash x.token_hash ≡ false) rs r
          u.0 found in
      let differs =
        hash_differs x.token_hash r.token_hash hash (claimable-hash hash now r claimable).0 apart in
      (
        if_both (λ z. same z.token_hash hash && is_ready z.state ≡ false)
            (is_ready_row r.artifact_id x) (claim x) x
            (left_false (same x.token_hash hash) _ differs)
            (left_false (same x.token_hash hash) _ differs),
        spent-after hash now rs r u.1 found,
      )
]

begin-IsSpent :
    (hash : Bytes) (now : ℕ) (s : Artifacts) (q : ArtifactRecord) (u : Artifacts)
    → UniqueHashes s.artifacts
    → begin_one_time_consume hash now s ≡ success (q, u)
    → IsSpent hash u.artifacts
begin-IsSpent hash now s q u unique h =
    let (r, found, e) = begin-found hash now s q u h in
    subst (IsSpent hash) (sym e) (record {
      known =
          update-known hash (is_ready_row r.artifact_id) claim s.artifacts claim-Retires
          ∙ selected-known hash now s.artifacts r found;
      none_ready = spent-after hash now s.artifacts r unique found;
    })

-- A call of the repository, with the tables before and after it.
pub data Step (s u : Artifacts) : Type 0 where
  creates :
      (envelope_id id : Bytes) (now : ℕ) (peer : Bytes) (c : SecretContext) (e : Envelope)
      (own : Bytes) (expires : ℕ)
      → create_one_time envelope_id id now peer c e own expires s ≡ success u
      → Step s u
  begins :
      (own : Bytes) (now : ℕ) (q : ArtifactRecord)
      → begin_one_time_consume own now s ≡ success (q, u)
      → Step s u
  finalizes : (id : Bytes) (now : ℕ) → finalize_one_time_consume id now s ≡ success u → Step s u
  cleans : (now : ℕ) → cleanup_one_time now s ≡ u → Step s u

pub data Steps (s : Artifacts) : Artifacts → Type 0 where
  none_yet : Steps s s
  then_step : (u v : Artifacts) → Steps s u → Step u v → Steps s v

Step-Keeps : (hash : Bytes) (s u : Artifacts) → Step s u → Keeps hash s u
unfolding cleanup_one_time
Step-Keeps hash s u (creates envelope_id id now peer c e own expires h) =
    create_one_time-Keeps hash envelope_id id now peer c e own expires s u h
Step-Keeps hash s u (begins own now q h) =
    let (r, _, e) = begin-found own now s q u h in
    updated-Keeps hash (is_ready_row r.artifact_id) claim s u claim-Retires e
Step-Keeps hash s u (finalizes id now h) = finalize-Keeps hash id now s u h
Step-Keeps hash s u (cleans now h) =
    subst (Keeps hash s) h (cleanup_rows-Keeps hash now (rows_where (is_stale now) s.artifacts) s)

steps-IsSpent :
    (hash : Bytes) (s u : Artifacts)
    → Steps s u
    → IsSpent hash s.artifacts
    → IsSpent hash u.artifacts
steps-IsSpent hash s u none_yet h = h
steps-IsSpent hash s u (then_step t v past last) h =
    (Step-Keeps hash t u last).spent (steps-IsSpent hash s t past h)

unclaimable :
    (hash : Bytes) (now : ℕ) (rs : List ArtifactRow)
    → All (λ x. same x.token_hash hash && is_ready x.state ≡ false) rs
    → All (λ x. is_claimable hash now x ≡ false) rs
unfolding is_claimable
unclaimable hash now [] all = tt
unclaimable hash now (x ∷ rs) all = (
  regrouped (same x.token_hash hash) (is_ready x.state) (ltb now x.expires_at_ms) all.0,
  unclaimable hash now rs all.1,
)

-- After a token has claimed its artifact, no later claim by it succeeds, whatever artifacts are
-- created, claimed, finalized and cleaned up in between. Hashes of tokens are a key of the table.
pub claims_once :
    (hash : Bytes) (now later : ℕ) (s t u : Artifacts) (q : ArtifactRecord)
    → UniqueHashes s.artifacts
    → begin_one_time_consume hash now s ≡ success (q, t)
    → Steps t u
    → begin_one_time_consume hash later u ≡ failure ArtifactError.unavailable
unfolding begin_one_time_consume
claims_once hash now later s t u q unique h past =
    let spent = steps-IsSpent hash t u past (begin-IsSpent hash now s q t unique h) in
    rw
      (
        select_row-none (is_claimable hash later) u.artifacts
            (unclaimable hash later u.artifacts spent.none_ready),
        begin_one_time_consume,
      )
      refl

-- Hashes stay a key of the table in every history.
pub steps-UniqueHashes :
    (s u : Artifacts) → Steps s u → UniqueHashes s.artifacts → UniqueHashes u.artifacts
steps-UniqueHashes s u none_yet h = h
steps-UniqueHashes s u (then_step t v past last) h =
    (Step-Keeps [] t u last).unique (steps-UniqueHashes s t past h)
