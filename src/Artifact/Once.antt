-- ===== src/Artifact/Once.antt =====
-- A token claims its artifact once (src/internal/agent/repository/secret_store.go).
use wiregate.Prelude.{
  inl, inr, success, failure, none, some, not, length, ltb, ◌==◌, reject, bind-success,
  reject-success, Option-cases, Bool-cases, Fallible, [], ◌∷◌, some, Bool, List, ℕ, All, true,
  false, ◌||◌, ◌&&◌, ◌≡◌, refl, arith, subst, sym, ap, ◌∙◌, if_both,
}
use wiregate.Stdlib.Bytes.{Bytes, same}
use wiregate.Stdlib.Rows.{
  update_rows, any_row, update_rows-All, count_rows, select_row, any_row-All,
}
use wiregate.Artifact.Tables.{
  create_one_time, insert_envelope, is_taken, new_artifact, is_claimable, is_ready_row, claimed,
  begin_one_time_consume, is_consuming_row, finalize_one_time_consume, load_envelope,
  ArtifactRecord, ArtifactError, SecretContext, Envelope, ArtifactRow, Artifacts, ArtifactState,
  is_ready, claim, retire, retire_stale, cleanup_rows, delete_envelope, has_id, is_consuming,
}
use wiregate.Stdlib.Same.{same-eq}

-- The key on the hash of a token.
unfoldable pub UniqueHashes : List ArtifactRow → Type 0
UniqueHashes [] = Unit
UniqueHashes (r ∷ rs) = All (λ x. same x.token_hash r.token_hash ≡ false) rs × UniqueHashes rs

-- An artifact has the hash, and none that has it is ready.
pub record IsSpent (hash : Bytes) (rows : List ArtifactRow) : Type 0 where
  pub known : any_row (λ r. same r.token_hash hash) rows ≡ true
  pub none_ready : All (λ r. same r.token_hash hash && is_ready r.state ≡ false) rows

-- A change that keeps the hash of a row and makes none ready.
pub record Retires (f : ArtifactRow → ArtifactRow) : Type 0 where
  pub same_hash : (r : ArtifactRow) → (f r).token_hash ≡ r.token_hash
  pub not_ready : (r : ArtifactRow) → is_ready (f r).state ≡ false

pub and_not : (a b : Bool) → b ≡ false → a && b ≡ false
and_not a b h = ground arith

pub update-known :
    (hash : Bytes) (p : ArtifactRow → Bool) (f : ArtifactRow → ArtifactRow) (rs : List ArtifactRow)
    → Retires f
    → any_row (λ r. same r.token_hash hash) (update_rows p f rs)
      ≡ any_row (λ r. same r.token_hash hash) rs
update-known hash p f [] k = refl
update-known hash p f (r ∷ rs) k =
    if_both
      (λ x.
        same x.token_hash hash || any_row (λ y. same y.token_hash hash) (update_rows p f rs)
        ≡ same r.token_hash hash || any_row (λ y. same y.token_hash hash) rs)
      (p r) (f r) r
      (rw (k.same_hash r) (ap (λ b. same r.token_hash hash || b) (update-known hash p f rs k)))
      (ap (λ b. same r.token_hash hash || b) (update-known hash p f rs k))

update-IsSpent :
    (hash : Bytes) (p : ArtifactRow → Bool) (f : ArtifactRow → ArtifactRow) (rs : List ArtifactRow)
    → Retires f
    → IsSpent hash rs
    → IsSpent hash (update_rows p f rs)
update-IsSpent hash p f rs k h = record {
  known = update-known hash p f rs k ∙ h.known;
  none_ready =
      update_rows-All p f (λ r. same r.token_hash hash && is_ready r.state ≡ false) rs
        (λ r _ _. and_not (same (f r).token_hash hash) (is_ready (f r).state) (k.not_ready r))
        h.none_ready;
}

update-UniqueHashes :
    (p : ArtifactRow → Bool) (f : ArtifactRow → ArtifactRow) (rs : List ArtifactRow)
    → Retires f
    → UniqueHashes rs
    → UniqueHashes (update_rows p f rs)
unfolding UniqueHashes
update-UniqueHashes p f [] k u = tt
update-UniqueHashes p f (r ∷ rs) k u =
    let later : All (λ x. same x.token_hash r.token_hash ≡ false) (update_rows p f rs) =
      update_rows-All p f (λ x. same x.token_hash r.token_hash ≡ false) rs
        (λ x _ e. rw (k.same_hash x) e) u.0 in
    (
      if_both (λ y. All (λ x. same x.token_hash y.token_hash ≡ false) (update_rows p f rs)) (p r)
          (f r) r (rw (k.same_hash r) later) later,
      update-UniqueHashes p f rs k u.1,
    )

pub claim-Retires : Retires claim
claim-Retires = record { same_hash = λ r. refl; not_ready = λ r. refl }

consumed-Retires : (now : ℕ) → Retires (retire ArtifactState.consumed (some now))
consumed-Retires now = record { same_hash = λ r. refl; not_ready = λ r. refl }

stale-Retires : (b : Bool) (now : ℕ) → Retires (retire_stale b now)
stale-Retires true now = record { same_hash = λ r. refl; not_ready = λ r. refl }
stale-Retires false now = record { same_hash = λ r. refl; not_ready = λ r. refl }

-- What the rows of the table keep.
pub record Keeps (hash : Bytes) (s u : Artifacts) : Type 0 where
  pub unique : UniqueHashes s.artifacts → UniqueHashes u.artifacts
  pub spent : IsSpent hash s.artifacts → IsSpent hash u.artifacts

pub updated-Keeps :
    (hash : Bytes) (p : ArtifactRow → Bool) (f : ArtifactRow → ArtifactRow) (s u : Artifacts)
    → Retires f
    → u.artifacts ≡ update_rows p f s.artifacts
    → Keeps hash s u
updated-Keeps hash p f s u k e = record {
  unique = λ h. subst UniqueHashes (sym e) (update-UniqueHashes p f s.artifacts k h);
  spent = λ h. subst (IsSpent hash) (sym e) (update-IsSpent hash p f s.artifacts k h);
}

same-Keeps : (hash : Bytes) (s : Artifacts) → Keeps hash s s
same-Keeps hash s = record { unique = λ h. h; spent = λ h. h }

pub cleanup_rows-Keeps :
    (hash : Bytes) (now : ℕ) (records : List ArtifactRow) (s : Artifacts)
    → Keeps hash s (cleanup_rows now records s)
unfolding cleanup_rows
cleanup_rows-Keeps hash now [] s = same-Keeps hash s
cleanup_rows-Keeps hash now (r ∷ records) s =
    let p : ArtifactRow → Bool = has_id r.artifact_id in
    let f : ArtifactRow → ArtifactRow = retire_stale (is_consuming r.state) now in
    let rest = cleanup_rows-Keeps hash now records (record s {
      artifacts = update_rows p f s.artifacts;
      envelopes = delete_envelope r.secret_envelope_id s.envelopes;
    }) in
    let k = stale-Retires (is_consuming r.state) now in
    record {
      unique = λ h. rest.unique (update-UniqueHashes p f s.artifacts k h);
      spent = λ h. rest.spent (update-IsSpent hash p f s.artifacts k h);
    }

stored_eq :
    (t u : Artifacts) → ◌≡◌ {A = Fallible ArtifactError Artifacts} (success t) (success u) → t ≡ u
stored_eq t u h = cc

first_false : (a b : Bool) → a || b ≡ false → a ≡ false
first_false a b h = ground arith

both : (b : Bool) → b ≡ true → b ≡ false → ⊥
both b h k = cc

and_parts : (a b c : Bool) → a && (b && c) ≡ true → (a ≡ true) × (b ≡ true)
and_parts a b c h = ground arith

-- A new row has a hash that no row has.
inserted-Keeps :
    (hash : Bytes) (r : ArtifactRow) (s u : Artifacts)
    → any_row (λ x. same x.token_hash r.token_hash) s.artifacts ≡ false
    → u.artifacts ≡ r ∷ s.artifacts
    → Keeps hash s u
unfolding UniqueHashes
inserted-Keeps hash r s u fresh e = record {
  unique = λ h.
      subst UniqueHashes (sym e)
        (any_row-All (λ x. same x.token_hash r.token_hash) s.artifacts fresh, h);
  spent = λ h. elim (Bool-cases (same r.token_hash hash)) [
    | inl f ↦ absurd (
        both (any_row (λ x. same x.token_hash hash) s.artifacts) h.known (
          subst (λ t. any_row (λ x. same x.token_hash t) s.artifacts ≡ false)
            (same-eq r.token_hash hash f) fresh))
    | inr f ↦
        subst (IsSpent hash) (sym e)
          (record { known = rw f h.known; none_ready = (rw f refl, h.none_ready) })
  ];
}

pub create_one_time-Keeps :
    (hash envelope_id id : Bytes) (now : ℕ) (peer : Bytes) (c : SecretContext) (e : Envelope)
    (own : Bytes) (expires : ℕ) (s u : Artifacts)
    → create_one_time envelope_id id now peer c e own expires s ≡ success u
    → Keeps hash s u
unfolding create_one_time is_taken
create_one_time-Keeps hash envelope_id id now peer c e own expires s u h =
    let (_, _, h1) =
      bind-success
        (reject (not (length own == 32) || not (ltb now expires)) ArtifactError.invalid_artifact) _
        u h in
    let (kept, _, h2) = bind-success (insert_envelope envelope_id c e s) _ u h1 in
    let (_, fresh, h3) =
      bind-success (reject (is_taken id peer own s) ArtifactError.constraint_failed) _ u h2 in
    inserted-Keeps hash (new_artifact id peer envelope_id own expires now) s u
      (first_false (any_row (λ x. same x.token_hash own) s.artifacts) _ (reject-success _ _ fresh))
      (subst (λ v. v.artifacts ≡ new_artifact id peer envelope_id own expires now ∷ s.artifacts)
        (stored_eq _ u h3) refl)

claimed_eq :
    (q r : ArtifactRecord) (t u : Artifacts)
    → ◌≡◌ {A = Fallible ArtifactError (ArtifactRecord × Artifacts)}
        (success (q, t))
        (success (r, u))
    → t ≡ u
claimed_eq q r t u h = cc

not_claimed : {e : ArtifactError} {q : ArtifactRecord × Artifacts} → failure e ≡ success q → ⊥
not_claimed h = cc

claimed-artifacts :
    (r : ArtifactRow) (s : Artifacts) (q : ArtifactRecord) (u : Artifacts)
    → claimed r s ≡ success (q, u)
    → u.artifacts ≡ update_rows (is_ready_row r.artifact_id) claim s.artifacts
unfolding claimed
claimed-artifacts r s q u h =
    let (_, _, h1) =
      bind-success
        (reject (not (count_rows (is_ready_row r.artifact_id) s.artifacts == 1))
          ArtifactError.unavailable)
        _ (q, u) h in
    let (id, _, h2) =
      bind-success
        (elim r.secret_envelope_id [
          | none ↦ failure ArtifactError.no_envelope
          | some e ↦ success e
        ])
        _ (q, u) h1 in
    let (loaded, _, h3) = bind-success (load_envelope id s) _ (q, u) h2 in
    subst (λ v. v.artifacts ≡ update_rows (is_ready_row r.artifact_id) claim s.artifacts)
      (claimed_eq _ q _ u h3) refl

-- A claim that succeeds found its row.
pub begin-found :
    (hash : Bytes) (now : ℕ) (s : Artifacts) (q : ArtifactRecord) (u : Artifacts)
    → begin_one_time_consume hash now s ≡ success (q, u)
    → (r : ArtifactRow) × (select_row (is_claimable hash now) s.artifacts ≡ some r)
      × (u.artifacts ≡ update_rows (is_ready_row r.artifact_id) claim s.artifacts)
unfolding begin_one_time_consume
begin-found hash now s q u h =
    elim (Option-cases (select_row (is_claimable hash now) s.artifacts)) [
      | inl e ↦ absurd (not_claimed (rw (e, begin_one_time_consume) at h))
      | inr (r, e) ↦ (r, e, claimed-artifacts r s q u (rw (e, begin_one_time_consume) at h))
    ]

pub finalize-Keeps :
    (hash id : Bytes) (now : ℕ) (s u : Artifacts)
    → finalize_one_time_consume id now s ≡ success u
    → Keeps hash s u
unfolding finalize_one_time_consume
finalize-Keeps hash id now s u h =
    elim (Option-cases (select_row (is_consuming_row id) s.artifacts)) [
      | inl e ↦
          subst (Keeps hash s) (stored_eq s u (rw (e, finalize_one_time_consume) at h))
            (same-Keeps hash s)
      | inr (r, e) ↦
          updated-Keeps hash (is_consuming_row id) (retire ArtifactState.consumed (some now)) s u
            (consumed-Retires now)
            (subst
              (λ v.
                v.artifacts
                ≡ update_rows (is_consuming_row id) (retire ArtifactState.consumed (some now))
                    s.artifacts)
              (stored_eq _ u (rw (e, finalize_one_time_consume) at h)) refl)
    ]

pub hash_differs : (x y hash : Bytes) → same y hash ≡ true → same y x ≡ false → same x hash ≡ false
hash_differs x y hash h k = elim (Bool-cases (same x hash)) [
  | inr e ↦ e
  | inl e ↦ absurd (both (same y x) (subst (λ t. same y t ≡ true) (sym (same-eq x hash e)) h) k)
]

pub claimable-hash :
    (hash : Bytes) (now : ℕ) (r : ArtifactRow)
    → is_claimable hash now r ≡ true
    → (same r.token_hash hash ≡ true) × (is_ready r.state ≡ true)
unfolding is_claimable
claimable-hash hash now r h = and_parts (same r.token_hash hash) (is_ready r.state) _ h
