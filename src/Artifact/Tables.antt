-- ===== src/Artifact/Tables.antt =====
-- The tables of one-time artifacts and of envelopes, with the statements of
-- src/internal/agent/repository/secret_store.go. Identifiers that the source draws and the time, in
-- milliseconds, are arguments; a transaction that fails changes nothing. Every artifact has an
-- envelope of its own, so that its deletion touches no other row.
use wiregate.Prelude.{
  [], ◌∷◌, none, some, Bool, Option, length, List, ℕ, true, false, ◌||◌, ◌&&◌, not, ◌==◌, ltb, leb,
  Fallible, success, failure, ◌>>=◌, reject, if◌then◌else◌, contains_by,
}
use wiregate.Stdlib.Bytes.{Bytes, codes, same}
use wiregate.Stdlib.Rows.{select_row, update_rows, count_rows, rows_where, any_row}

pub data ArtifactState : Type 0 where
  ready consuming consumed expired : ArtifactState

-- `secret.Context`, whose gateway is the one of the database.
pub record SecretContext : Type 0 where
  pub gateway_id : Bytes
  pub owner_type : Bytes
  pub owner_id : Bytes
  pub purpose : Bytes

pub record Envelope : Type 0 where
  pub algorithm : Bytes
  pub ciphertext : Bytes
  pub payload_nonce : Bytes
  pub wrapped_dek : Bytes
  pub wrap_nonce : Bytes
  pub key_version : ℕ
  pub aad_version : ℕ
  pub secret_fingerprint : Bytes

pub record EnvelopeRow : Type 0 where
  pub envelope_id : Bytes
  pub sealed_for : SecretContext
  pub envelope : Envelope

pub record ArtifactRow : Type 0 where
  pub artifact_id : Bytes
  pub peer_id : Bytes
  pub secret_envelope_id : Option Bytes
  pub token_hash : Bytes
  pub state : ArtifactState
  pub expires_at_ms : ℕ
  pub consumed_at_ms : Option ℕ
  pub created_at_ms : ℕ

pub record Artifacts : Type 0 where
  pub artifacts : List ArtifactRow
  pub envelopes : List EnvelopeRow
  pub peers : List Bytes
  pub gateway : Bytes

pub record ArtifactRecord : Type 0 where
  pub id : Bytes
  pub peer : Bytes
  pub context : SecretContext
  pub content : Envelope
  pub expires : ℕ

pub data ArtifactError : Type 0 where
  unavailable invalid_artifact constraint_failed no_envelope : ArtifactError
  key_error seal_error open_error consumer_error : ArtifactError

abbrev pub is_ready : ArtifactState → Bool
is_ready ArtifactState.ready = true
is_ready _ = false

abbrev pub is_consuming : ArtifactState → Bool
is_consuming ArtifactState.consuming = true
is_consuming _ = false

unfoldable pub known_purpose : Bytes → Bool
unfolding same
known_purpose = contains_by same (
    codes "client_private_key"
    ∷ codes "preshared_key"
    ∷ codes "one_time_payload"
    ∷ codes "archived_peer_block"
    ∷ codes "snapshot_payload"
    ∷ [])

-- The identifier or the owner and purpose are taken.
unfoldable pub clashes : Bytes → SecretContext → EnvelopeRow → Bool
unfolding same
clashes id c r =
    same r.envelope_id id
    || (same r.sealed_for.owner_type c.owner_type
        && same r.sealed_for.owner_id c.owner_id
        && same r.sealed_for.purpose c.purpose)

unfoldable pub insert_envelope :
    Bytes → SecretContext → Envelope → Artifacts → Fallible ArtifactError Artifacts
unfolding clashes known_purpose
insert_envelope id c e s = do
  _ ←
      reject (any_row (clashes id c) s.envelopes || not (known_purpose c.purpose))
        ArtifactError.constraint_failed
  success (record s {
    envelopes = record { envelope_id = id; sealed_for = c; envelope = e } ∷ s.envelopes;
  })

-- The context gets the gateway of the database.
unfoldable pub load_envelope : Bytes → Artifacts → Fallible ArtifactError (SecretContext × Envelope)
unfolding same
load_envelope id s = elim (select_row (λ r. same r.envelope_id id) s.envelopes) [
  | none ↦ failure ArtifactError.no_envelope
  | some r ↦ success (record (r.sealed_for) { gateway_id = s.gateway }, r.envelope)
]

-- The constraints on a new row of artifacts.
unfoldable pub is_taken : Bytes → Bytes → Bytes → Artifacts → Bool
unfolding same
is_taken id peer hash s =
    any_row (λ r. same r.token_hash hash) s.artifacts
    || (any_row (λ r. same r.artifact_id id) s.artifacts || not (contains_by same s.peers peer))

abbrev pub new_artifact : Bytes → Bytes → Bytes → Bytes → ℕ → ℕ → ArtifactRow
new_artifact id peer envelope hash expires now = record {
  artifact_id = id;
  peer_id = peer;
  secret_envelope_id = some envelope;
  token_hash = hash;
  state = ArtifactState.ready;
  expires_at_ms = expires;
  consumed_at_ms = none;
  created_at_ms = now;
}

unfoldable pub create_one_time :
    Bytes
    → Bytes
    → ℕ
    → Bytes
    → SecretContext
    → Envelope
    → Bytes
    → ℕ
    → Artifacts
    → Fallible ArtifactError Artifacts
unfolding insert_envelope is_taken
create_one_time envelope_id id now peer c e hash expires s = do
  _ ← reject (not (length hash == 32) || not (ltb now expires)) ArtifactError.invalid_artifact
  kept ← insert_envelope envelope_id c e s
  _ ← reject (is_taken id peer hash s) ArtifactError.constraint_failed
  success
      (record kept { artifacts = new_artifact id peer envelope_id hash expires now ∷ s.artifacts })

-- `token_hash = ? AND state = 'ready' AND expires_at_ms > ?`
unfoldable pub is_claimable : Bytes → ℕ → ArtifactRow → Bool
unfolding same
is_claimable hash now r = same r.token_hash hash && (is_ready r.state && ltb now r.expires_at_ms)

unfoldable pub is_ready_row : Bytes → ArtifactRow → Bool
unfolding same
is_ready_row id r = same r.artifact_id id && is_ready r.state

abbrev pub claim : ArtifactRow → ArtifactRow
claim r = record r { state = ArtifactState.consuming }

unfoldable pub claimed :
    ArtifactRow → Artifacts → Fallible ArtifactError (ArtifactRecord × Artifacts)
unfolding is_ready_row load_envelope
claimed r s = do
  _ ←
      reject (not (count_rows (is_ready_row r.artifact_id) s.artifacts == 1))
        ArtifactError.unavailable
  id ← elim r.secret_envelope_id [ none ↦ failure ArtifactError.no_envelope | some e ↦ success e ]
  loaded ← load_envelope id s
  success (
    record {
      id = r.artifact_id;
      peer = r.peer_id;
      context = loaded.0;
      content = loaded.1;
      expires = r.expires_at_ms;
    },
    record s { artifacts = update_rows (is_ready_row r.artifact_id) claim s.artifacts },
  )

unfoldable pub begin_one_time_consume :
    Bytes → ℕ → Artifacts → Fallible ArtifactError (ArtifactRecord × Artifacts)
unfolding is_claimable claimed
begin_one_time_consume hash now s = elim (select_row (is_claimable hash now) s.artifacts) [
  | none ↦ failure ArtifactError.unavailable
  | some r ↦ claimed r s
]

unfoldable pub is_consuming_row : Bytes → ArtifactRow → Bool
unfolding same
is_consuming_row id r = same r.artifact_id id && is_consuming r.state

-- The row loses its envelope.
abbrev pub retire : ArtifactState → Option ℕ → ArtifactRow → ArtifactRow
retire to at r = record r { state = to; consumed_at_ms = at; secret_envelope_id = none }

-- `DELETE FROM secret_envelopes WHERE id = ?`, which no row fulfils for a NULL.
unfoldable pub delete_envelope : Option Bytes → List EnvelopeRow → List EnvelopeRow
unfolding same
delete_envelope none rows = rows
delete_envelope (some id) rows = rows_where (λ e. not (same e.envelope_id id)) rows

unfoldable pub finalize_one_time_consume : Bytes → ℕ → Artifacts → Fallible ArtifactError Artifacts
unfolding is_consuming_row delete_envelope
finalize_one_time_consume id now s = elim (select_row (is_consuming_row id) s.artifacts) [
  | none ↦ success s
  | some r ↦ success (record s {
    artifacts =
        update_rows (is_consuming_row id) (retire ArtifactState.consumed (some now)) s.artifacts;
    envelopes = delete_envelope r.secret_envelope_id s.envelopes;
  })
]

-- `state = 'consuming' OR (state = 'ready' AND expires_at_ms <= ?)`
unfoldable pub is_stale : ℕ → ArtifactRow → Bool
is_stale now r = is_consuming r.state || (is_ready r.state && leb r.expires_at_ms now)

unfoldable pub has_id : Bytes → ArtifactRow → Bool
unfolding same
has_id id r = same r.artifact_id id

abbrev pub retire_stale : Bool → ℕ → ArtifactRow → ArtifactRow
retire_stale was_consuming now =
    if was_consuming
    then retire ArtifactState.consumed (some now)
    else retire ArtifactState.expired none

unfoldable pub cleanup_rows : ℕ → List ArtifactRow → Artifacts → Artifacts
unfolding has_id delete_envelope
cleanup_rows now [] s = s
cleanup_rows now (r ∷ records) s = cleanup_rows now records (record s {
  artifacts =
      update_rows (has_id r.artifact_id) (retire_stale (is_consuming r.state) now) s.artifacts;
  envelopes = delete_envelope r.secret_envelope_id s.envelopes;
})

unfoldable pub cleanup_one_time : ℕ → Artifacts → Artifacts
unfolding cleanup_rows is_stale
cleanup_one_time now s = cleanup_rows now (rows_where (is_stale now) s.artifacts) s
