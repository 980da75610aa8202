-- ===== src/Effects/Keys.antt =====
-- Ed25519 keys (effect_protocol.py): the identity of a key, and `verify_executor_result_signature`.
-- The cryptography package, base64, hashlib and the canonical JSON of an envelope are parameters.
use governed_signal_to_conte.Base.{
  Bool, Option, Result, String, not, ok, or_raise, raise_if, text_append, value_error, ◌&&◌, ◌==◌,
  ◌>>=◌, ◌>>◌,
}
use governed_signal_to_conte.Effects.Tables.{EffectExecutor, ExecutorResult}

-- What the source calls of those packages. `none` stands for the exception that is raised.
pub record Keys : Type 1 where
  pub Bytes : Type 0
  pub PublicKey : Type 0
  pub b64decode : String → Option Bytes
  pub b64encode : Bytes → String
  pub from_public_bytes : Bytes → Option PublicKey
  pub public_bytes : PublicKey → Bytes
  pub verify : PublicKey → Bytes → Bytes → Bool
  pub sha256 : Bytes → String

pub record KeyIdentity : Type 0 where
  pub key_id : String
  pub fingerprint : String
  pub public_key_b64 : String

unfoldable pub public_key_identity : (k : Keys) → k.PublicKey → KeyIdentity
public_key_identity k public_key =
    let raw = k.public_bytes public_key in
    let fingerprint = k.sha256 raw in
    record {
      key_id = text_append "ed25519:" fingerprint;
      fingerprint = fingerprint;
      public_key_b64 = k.b64encode raw;
    }

pub record SignedResult : Type 0 where
  pub envelope : ExecutorResult
  pub signature_b64 : String

-- `canonical_executor_result_json` and the canonical JSON of the signed result, as UTF-8.
pub record ResultEncoding (k : Keys) : Type 0 where
  pub canonical_executor_result : ExecutorResult → k.Bytes
  pub canonical_signed_result : SignedResult → k.Bytes

-- The hashes of the envelope and of the signed envelope.
pub record ResultProof : Type 0 where
  pub envelope_hash : String
  pub proof_hash : String

abbrev pub result_proof : (k : Keys) → ResultEncoding k → SignedResult → ResultProof
result_proof k encoding signed = record {
  envelope_hash = k.sha256 (encoding.canonical_executor_result signed.envelope);
  proof_hash = k.sha256 (encoding.canonical_signed_result signed);
}

-- The stored verifier identity is that of the key itself.
unfoldable pub identifies_executor : KeyIdentity → EffectExecutor → Bool
identifies_executor i x =
    i.key_id == x.key_id
    && i.fingerprint == x.verifier_fingerprint
    && i.public_key_b64 == x.public_key_b64

module _ (k : Keys) (encoding : ResultEncoding k) where
  unfoldable pub verify_executor_result_signature :
      SignedResult → EffectExecutor → Result ResultProof
  unfolding public_key_identity identifies_executor
  verify_executor_result_signature signed x = do
    let envelope = signed.envelope
    let invalid = value_error "Executor result signature verification failed"
    raise_if
        (not (
          envelope.executor_id == x.executor_id
          && envelope.executor_key_id == x.key_id
          && x.authentication_scheme == "ed25519"))
        (value_error "Executor result identity does not match a trusted executor")
    raw_public ← or_raise (k.b64decode x.public_key_b64) invalid
    signature ← or_raise (k.b64decode signed.signature_b64) invalid
    public_key ← or_raise (k.from_public_bytes raw_public) invalid
    raise_if (not (identifies_executor (public_key_identity k public_key) x)) invalid
    raise_if (not (k.verify public_key signature (encoding.canonical_executor_result envelope)))
        invalid
    ok (result_proof k encoding signed)
