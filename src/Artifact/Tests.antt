-- ===== src/Artifact/Tests.antt =====
-- Runs of the theorems on one artifact.
use wiregate.Prelude.{
  Option, ap, sym, [], ◌∷◌, some, none, ◌≡◌, refl, true, success, failure, Bool, ℕ,
}
use wiregate.Stdlib.Bytes.{Bytes, codes}
use wiregate.Artifact.Tables.{
  Artifacts, ArtifactRow, ArtifactRecord, ArtifactState, ArtifactError, Envelope, SecretContext,
  begin_one_time_consume,
}
use wiregate.Stdlib.Rows.{some_eq}
use wiregate.Artifact.RoundTrip.{create-consume}
use wiregate.Artifact.Service.{create, Cipher, consume, unavailable}
use wiregate.Artifact.Once.{UniqueHashes}
use wiregate.Artifact.Reuse.{none_yet, claims_once}
use wiregate.Artifact.Delivery.{text_given, tables_after, consume_once}

-- A token is its own hash, and a text its own ciphertext.
abbrev plain : Cipher
plain = record {
  hash_token = λ t. t;
  master_key = λ version. some (codes "m");
  open_envelope = λ master context e. some e.ciphertext;
}

abbrev token : Bytes
token = codes "0123456789abcdef0123456789abcdef"

abbrev sealed : Envelope
sealed = record {
  algorithm = codes "x";
  ciphertext = codes "secret";
  payload_nonce = [];
  wrapped_dek = [];
  wrap_nonce = [];
  key_version = 1;
  aad_version = 1;
  secret_fingerprint = [];
}

abbrev purpose : SecretContext
purpose = record {
  gateway_id = codes "g";
  owner_type = codes "artifact";
  owner_id = codes "p1";
  purpose = codes "one_time_payload";
}

abbrev artifact : ArtifactRow
artifact = record {
  artifact_id = codes "a1";
  peer_id = codes "p1";
  secret_envelope_id = some (codes "e1");
  token_hash = token;
  state = ArtifactState.ready;
  expires_at_ms = 900;
  consumed_at_ms = none;
  created_at_ms = 100;
}

abbrev holding : Artifacts
holding = record {
  artifacts = artifact ∷ [];
  envelopes = record { envelope_id = codes "e1"; sealed_for = purpose; envelope = sealed } ∷ [];
  peers = codes "p1" ∷ [];
  gateway = codes "g";
}

abbrev taken : ArtifactRecord
taken = record {
  id = codes "a1";
  peer = codes "p1";
  context = purpose;
  content = sealed;
  expires = 900;
}

abbrev claimed_holding : Artifacts
claimed_holding = record holding {
  artifacts = record artifact { state = ArtifactState.consuming } ∷ [];
}

unique : UniqueHashes (artifact ∷ [])
unfolding UniqueHashes
unique = (tt, tt)

begun : begin_one_time_consume token 200 holding ≡ success (taken, claimed_holding)
unfolding begin_one_time_consume
begun = refl

claims_once_example :
    begin_one_time_consume token 300 claimed_holding ≡ failure ArtifactError.unavailable
claims_once_example =
    claims_once token 200 300 holding claimed_holding claimed_holding taken unique begun none_yet

abbrev accepting : Bytes → Bool
accepting text = true

given : text_given (consume plain token accepting 200 201 holding) ≡ some (codes "secret")
unfolding consume
given = refl

consume_once_example :
    consume plain token accepting 300 301
      (tables_after (consume plain token accepting 200 201 holding))
    ≡ (unavailable, tables_after (consume plain token accepting 200 201 holding))
consume_once_example =
    consume_once plain token accepting accepting 200 201 300 301 holding
      (tables_after (consume plain token accepting 200 201 holding)) (codes "secret") unique given
      none_yet

abbrev empty_tables : Artifacts
empty_tables = record holding { artifacts = []; envelopes = [] }

abbrev seal : Bytes → ℕ → SecretContext → Bytes → Option Envelope
seal master version context text = some (record sealed { ciphertext = text; key_version = version })

seal_opens :
    (master : Bytes) (e : Envelope)
    → seal master 1 purpose (codes "secret") ≡ some e
    → (plain.open_envelope master purpose e ≡ some (codes "secret")) × (e.key_version ≡ 1)
seal_opens master e h = (
  ap {A = Envelope} (λ x. some x.ciphertext)
      (sym (some_eq (record sealed { ciphertext = codes "secret"; key_version = 1 }) e h)),
  ap {A = Envelope} (λ x. x.key_version)
      (sym (some_eq (record sealed { ciphertext = codes "secret"; key_version = 1 }) e h)),
)

created :
    create plain seal 1
      (codes "p1")
      purpose
      (codes "secret")
      800
      token
      (codes "e1")
      (codes "a1")
      100
      100
      empty_tables
    ≡ success holding
unfolding create
created = refl

create-consume_example :
    text_given (consume plain token accepting 200 201 holding) ≡ some (codes "secret")
create-consume_example =
    create-consume plain seal 1 (codes "p1") purpose (codes "secret") 800 token (codes "e1")
      (codes "a1") 100 100 200 201 accepting empty_tables holding seal_opens refl refl created refl
