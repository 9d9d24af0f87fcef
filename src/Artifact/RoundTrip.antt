-- ===== src/Artifact/RoundTrip.antt =====
-- What was created is what a consumer is given (src/internal/agent/artifact/service.go).
use wiregate.Prelude.{
  suc, [], ◌∷◌, none, some, Bool, Option, ℕ, length, true, false, not, ◌==◌, ◌≡◌, refl, Fallible,
  success, failure, sym, subst, ap, reject, bind-success, reject-success, ◌||◌, ◌+◌, ltb, List,
  arith, ◌∙◌, contains_by,
}
use wiregate.Stdlib.Bytes.{Bytes, same}
use wiregate.Stdlib.Same.{same_refl}
use wiregate.Stdlib.Rows.{any_row, count_rows, select_row, update_rows}
use wiregate.Artifact.Tables.{
  Artifacts, ArtifactRow, ArtifactRecord, ArtifactError, SecretContext, Envelope, new_artifact,
  is_taken, insert_envelope, create_one_time, begin_one_time_consume, is_claimable, is_ready_row,
  claimed, claim, load_envelope, finalize_one_time_consume, clashes, known_purpose, is_ready,
}
use wiregate.Artifact.Service.{Cipher, Outcome, create, consume, deliver, finished, or_error}
use wiregate.Artifact.Delivery.{text_given}

or_error-success :
    {A : Type 0} (o : Option A) (e : ArtifactError) (a : A) → or_error o e ≡ success a → o ≡ some a
or_error-success none e a h = cc
or_error-success (some b) e a h = cc

kept_eq :
    (t u : Artifacts) → ◌≡◌ {A = Fallible ArtifactError Artifacts} (success t) (success u) → t ≡ u
kept_eq t u h = cc

-- The tables after an artifact was created.
record IsCreated (envelope_id id peer : Bytes) (now : ℕ) (c : SecretContext) (e : Envelope)
    (hash : Bytes) (expires : ℕ) (s u : Artifacts) : Type 0 where
  rows : u.artifacts ≡ new_artifact id peer envelope_id hash expires now ∷ s.artifacts
  contents :
      u.envelopes ≡ record { envelope_id = envelope_id; sealed_for = c; envelope = e } ∷ s.envelopes
  same_gateway : u.gateway ≡ s.gateway
  new_id : any_row (λ r. same r.artifact_id id) s.artifacts ≡ false

middle_false : (a b c : Bool) → a || (b || c) ≡ false → b ≡ false
middle_false a b c h = ground arith

create_one_time-IsCreated :
    (envelope_id id : Bytes) (now : ℕ) (peer : Bytes) (c : SecretContext) (e : Envelope)
    (hash : Bytes) (expires : ℕ) (s u : Artifacts)
    → create_one_time envelope_id id now peer c e hash expires s ≡ success u
    → IsCreated envelope_id id peer now c e hash expires s u
unfolding create_one_time insert_envelope is_taken
create_one_time-IsCreated envelope_id id now peer c e hash expires s u h =
    let (_, _, h1) =
      bind-success
        (reject (not (length hash == 32) || not (ltb now expires)) ArtifactError.invalid_artifact) _
        u h in
    let (kept, g, h2) = bind-success (insert_envelope envelope_id c e s) _ u h1 in
    let (_, _, g1) =
      bind-success
        (reject (any_row (clashes envelope_id c) s.envelopes || not (known_purpose c.purpose))
          ArtifactError.constraint_failed)
        _ kept g in
    let (_, fresh, h3) =
      bind-success (reject (is_taken id peer hash s) ArtifactError.constraint_failed) _ u h2 in
    let inserted : Artifacts = record s {
      envelopes = record { envelope_id = envelope_id; sealed_for = c; envelope = e } ∷ s.envelopes;
    } in
    let made : Artifacts = record inserted {
      artifacts = new_artifact id peer envelope_id hash expires now ∷ s.artifacts;
    } in
    let put : Artifacts → Artifacts = λ k. record k {
      artifacts = new_artifact id peer envelope_id hash expires now ∷ s.artifacts;
    } in
    let same_made : made ≡ u = ap put (kept_eq inserted kept g1) ∙ kept_eq (put kept) u h3 in
    subst (λ v. IsCreated envelope_id id peer now c e hash expires s v) same_made
      (record {
        rows = refl;
        contents = refl;
        same_gateway = refl;
        new_id =
            middle_false (any_row (λ r. same r.token_hash hash) s.artifacts)
              (any_row (λ r. same r.artifact_id id) s.artifacts)
              (not (contains_by same s.peers peer)) (reject-success _ _ fresh);
      })

neither : (a b : Bool) → a || b ≡ false → (a ≡ false) × (b ≡ false)
neither a b h = ground arith

claimable_new :
    (r : ArtifactRow) (hash : Bytes) (at : ℕ)
    → r.token_hash ≡ hash
    → is_ready r.state ≡ true
    → ltb at r.expires_at_ms ≡ true
    → is_claimable hash at r ≡ true
unfolding is_claimable
claimable_new r hash at e f h =
    rw (subst (λ t. same r.token_hash t ≡ true) e (same_refl r.token_hash), f, h) refl

ready_new : (r : ArtifactRow) → is_ready r.state ≡ true → is_ready_row r.artifact_id r ≡ true
unfolding is_ready_row
ready_new r h = rw (same_refl r.artifact_id, h) refl

none_counted :
    (id : Bytes) (rs : List ArtifactRow)
    → any_row (λ r. same r.artifact_id id) rs ≡ false
    → count_rows (is_ready_row id) rs ≡ 0
unfolding is_ready_row
none_counted id [] h = refl
none_counted id (r ∷ rs) h =
    let (here, later) =
      neither (same r.artifact_id id) (any_row (λ x. same x.artifact_id id) rs) h in
    rw here (none_counted id rs later)

-- The record of the new artifact.
abbrev taken : Bytes → Bytes → SecretContext → Envelope → ℕ → ArtifactRecord
taken id peer c e expires = record {
  id = id;
  peer = peer;
  context = c;
  content = e;
  expires = expires;
}

loaded :
    (envelope_id id peer : Bytes) (now : ℕ) (c : SecretContext) (e : Envelope) (hash : Bytes)
    (expires : ℕ) (s u : Artifacts)
    → IsCreated envelope_id id peer now c e hash expires s u
    → c.gateway_id ≡ s.gateway
    → load_envelope envelope_id u ≡ success (c, e)
unfolding load_envelope
loaded envelope_id id peer now c e hash expires s u k g = rw k.contents (
    rw (same_refl envelope_id, load_envelope)
      (ap {A = Bytes} {B = Fallible ArtifactError (SecretContext × Envelope)}
        (λ x. success (record c { gateway_id = x }, e)) (k.same_gateway ∙ sym g)))

begun :
    (envelope_id id peer : Bytes) (now at : ℕ) (c : SecretContext) (e : Envelope) (hash : Bytes)
    (expires : ℕ) (s u : Artifacts)
    → IsCreated envelope_id id peer now c e hash expires s u
    → c.gateway_id ≡ s.gateway
    → ltb at expires ≡ true
    → begin_one_time_consume hash at u
      ≡ success (
        taken id peer c e expires,
        record u { artifacts = update_rows (is_ready_row id) claim u.artifacts },
      )
unfolding begin_one_time_consume claimed
begun envelope_id id peer now at c e hash expires s u k g early =
    let row : ArtifactRow = new_artifact id peer envelope_id hash expires now in
    let hit : select_row (is_claimable hash at) u.artifacts ≡ some row =
      rw k.rows (rw (claimable_new row hash at refl refl early) refl) in
    let one : count_rows (is_ready_row id) u.artifacts ≡ 1 =
      rw k.rows (rw (ready_new row refl) (ap suc (none_counted id s.artifacts k.new_id))) in
    rw (hit, begin_one_time_consume)
      (rw one (rw (loaded envelope_id id peer now c e hash expires s u k g) refl))

answered-given :
    (o : Outcome) (u : Artifacts) (e : ArtifactError) (a : Fallible ArtifactError Unit)
    → o.answer ≡ a
    → text_given (finished o u (failure e)) ≡ o.given
answered-given o u e (failure f) h = rw h refl
answered-given o u e (success x) h = rw h refl

finished-given :
    (o : Outcome) (u : Artifacts) (m : Fallible ArtifactError Artifacts)
    → text_given (finished o u m) ≡ o.given
finished-given o u (success v) = refl
finished-given o u (failure e) = answered-given o u e o.answer refl

delivered :
    (c : Cipher) (consumer : Bytes → Bool) (r : ArtifactRecord) (master text : Bytes)
    → c.master_key r.content.key_version ≡ some master
    → c.open_envelope master r.context r.content ≡ some text
    → (deliver c consumer r).given ≡ some text
unfolding deliver
delivered c consumer r master text m o = rw (m, deliver) (rw (o, deliver) refl)

-- The text that Create sealed is what Consume gives its consumer, with the token, before the
-- artifact expires. What is sealed for a context opens under the master key for it, and has the
-- version of the key; the context names the gateway of the database.
pub create-consume :
    (c : Cipher) (seal : Bytes → ℕ → SecretContext → Bytes → Option Envelope) (key : ℕ)
    (peer : Bytes) (context : SecretContext) (payload : Bytes) (ttl : ℕ)
    (token envelope_id id : Bytes) (asked now at fin : ℕ) (consumer : Bytes → Bool)
    (s u : Artifacts)
    → ((master : Bytes) (e : Envelope)
        → seal master key context payload ≡ some e
        → (c.open_envelope master context e ≡ some payload) × (e.key_version ≡ key))
    → context.gateway_id ≡ s.gateway
    → (length token == 32) ≡ true
    → create c seal key peer context payload ttl token envelope_id id asked now s ≡ success u
    → ltb at (asked + ttl) ≡ true
    → text_given (consume c token consumer at fin u) ≡ some payload
unfolding create consume
create-consume c seal key peer context payload ttl token envelope_id id asked now at fin consumer s
      u opens g sized h early =
    let (_, _, h1) =
      bind-success (reject (length peer == 0 || ttl == 0) ArtifactError.invalid_artifact) _ u h in
    let (master, m, h2) =
      bind-success (or_error (c.master_key key) ArtifactError.key_error) _ u h1 in
    let (e, sealed, h3) =
      bind-success (or_error (seal master key context payload) ArtifactError.seal_error) _ u h2 in
    let hash : Bytes = c.hash_token token in
    let made =
      create_one_time-IsCreated envelope_id id now peer context e hash (asked + ttl) s u h3 in
    let (opened, version) =
      opens master e (or_error-success (seal master key context payload) _ e sealed) in
    let r : ArtifactRecord = taken id peer context e (asked + ttl) in
    let v : Artifacts = record u { artifacts = update_rows (is_ready_row id) claim u.artifacts } in
    let has_key : c.master_key e.key_version ≡ some master =
      subst (λ n. c.master_key n ≡ some master) (sym version)
        (or_error-success (c.master_key key) _ master m) in
    rw sized (
      rw (begun envelope_id id peer now at context e hash (asked + ttl) s u made g early, consume)
        (finished-given (deliver c consumer r) v (finalize_one_time_consume id fin v)
          ∙ delivered c consumer r master payload has_key opened))
