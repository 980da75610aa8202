-- ===== src/Authentication/Verify.antt =====
-- `authenticate_authority_request` (authentication.py). Times are microseconds since an epoch; their
-- texts, the canonical JSON of an operation and its UTF-8 are parameters.
use governed_signal_to_conte.Authentication.Operations.{
  AuthenticatedRequest, Envelope, SignedOperation, evidence,
}
use governed_signal_to_conte.Base.{
  Bool, Error, Option, Result, String, err, find_first, if◌then◌else◌, leb, ltb, none, not, ok,
  or_raise, permission_error, raise_if, some, value_error, ℕ, ◌&&◌, ◌*◌, ◌+◌, ◌==◌, ◌>>=◌, ◌>>◌,
  ◌||◌,
}
use governed_signal_to_conte.Database.{Database}
use governed_signal_to_conte.Effects.Keys.{KeyIdentity, Keys, public_key_identity}
use governed_signal_to_conte.Receipts.Fields.{AuthenticationEvidence, VerificationStatus}
use governed_signal_to_conte.Tables.{ConsumedOperation, TrustedPrincipal}

-- `10 ** 6` microseconds
abbrev pub seconds : ℕ → ℕ
seconds n = n * 1000000

abbrev pub max_operation_lifetime_seconds : ℕ
max_operation_lifetime_seconds = 600

abbrev pub max_clock_skew_seconds : ℕ
max_clock_skew_seconds = 30

-- `_utc_datetime`, `_utc_text`, `canonical_envelope_json`, `canonical_json` of a signed operation,
-- `encode("utf-8")`, and `model_validate` of the envelope's `model_dump`. `none` stands for the
-- exception that is raised.
pub record OperationEncoding (k : Keys) : Type 0 where
  pub utc_datetime : String → Option ℕ
  pub utc_text : ℕ → String
  pub canonical_envelope_json : Envelope → String
  pub canonical_signed_json : SignedOperation → String
  pub encode : String → k.Bytes
  pub validate_dump : Envelope → Option Envelope

-- The verdict: the exception with its evidence, the exception of the validation, which has none, or
-- the request.
pub data Authentication : Type 0 where
  authenticated : AuthenticatedRequest → Authentication
  authentication_failed : Error → AuthenticationEvidence → Authentication
  replay_detected : AuthenticationEvidence → Authentication
  validation_failed : Error → Authentication

unfoldable pub get_trusted_principal : Database → String → Option TrustedPrincipal
get_trusted_principal db principal_id =
    find_first (λ p. p.principal_id == principal_id) db.trusted_principals

-- `WHERE operation_id = ? OR proof_hash = ?`
unfoldable pub find_consumed_authenticated_operation :
    Database → String → String → Option ConsumedOperation
find_consumed_authenticated_operation db operation_id proof_hash =
    find_first
      (λ c. c.operation.operation_id == operation_id || c.operation.proof_hash == proof_hash)
      db.authenticated_operations

unfoldable pub identifies_principal : KeyIdentity → TrustedPrincipal → Bool
identifies_principal i p =
    i.key_id == p.key_id
    && i.fingerprint == p.verifier_fingerprint
    && i.public_key_b64 == p.public_key_b64

-- The validity window of an operation, at a time.
unfoldable pub check_window : ℕ → ℕ → ℕ → Result (Unit {0})
check_window current issued expires = do
  raise_if (leb expires issued || ltb (issued + seconds max_operation_lifetime_seconds) expires)
      (value_error "Authenticated operation validity window is invalid")
  raise_if (ltb (current + seconds max_clock_skew_seconds) issued)
      (value_error "Authenticated operation was issued in the future")
  raise_if (leb expires current) (value_error "Authenticated operation has expired")

module _ (k : Keys) (encoding : OperationEncoding k) where
  unfoldable pub failed_evidence : Option SignedOperation → AuthenticationEvidence
  failed_evidence none = record {
    verification_status = VerificationStatus.failed;
    authenticated_principal_id = none;
    authentication_scheme = none;
    authentication_key_id = none;
    verifier_fingerprint = none;
    authentication_operation_id = none;
    authentication_envelope_hash = none;
    authentication_proof_hash = none;
    authenticated_at_utc = none;
  }
  failed_evidence (some signed) = record {
    verification_status = VerificationStatus.failed;
    authenticated_principal_id = none;
    authentication_scheme = some signed.envelope.authentication_scheme;
    authentication_key_id = some signed.envelope.key_id;
    verifier_fingerprint = none;
    authentication_operation_id = some signed.envelope.operation_id;
    authentication_envelope_hash =
        some (k.sha256 (encoding.encode (encoding.canonical_envelope_json signed.envelope)));
    authentication_proof_hash =
        some (k.sha256 (encoding.encode (encoding.canonical_signed_json signed)));
    authenticated_at_utc = none;
  }

  -- The signature over the canonical JSON of the envelope, under the principal's stored key.
  unfoldable pub verify_signature : SignedOperation → TrustedPrincipal → Result (Unit {0})
  unfolding identifies_principal public_key_identity
  verify_signature signed p = do
    let malformed = value_error "Malformed Ed25519 authentication material"
    let invalid = value_error "Ed25519 signature verification failed"
    raw_public_key ← or_raise (k.b64decode p.public_key_b64) malformed
    signature ← or_raise (k.b64decode signed.signature_b64) malformed
    raise_if (not (k.b64encode signature == signed.signature_b64))
        (value_error "Signature encoding is not canonical base64")
    public_key ← or_raise (k.from_public_bytes raw_public_key) invalid
    raise_if (not (identifies_principal (public_key_identity k public_key) p)) invalid
    raise_if
        (not (
          k.verify public_key signature
            (encoding.encode (encoding.canonical_envelope_json signed.envelope))))
        invalid

  -- The authenticated request, from the envelope that was validated again.
  abbrev pub request_of : ℕ → SignedOperation → TrustedPrincipal → Envelope → AuthenticatedRequest
  request_of current signed p request =
      let request_json = encoding.canonical_envelope_json request in
      record {
        request = request;
        principal = record {
          principal_id = signed.envelope.principal_id;
          authentication_scheme = "ed25519";
          key_id = signed.envelope.key_id;
          verifier_fingerprint = p.verifier_fingerprint;
          operation_id = signed.envelope.operation_id;
          envelope_hash = k.sha256 (encoding.encode request_json);
          proof_hash = k.sha256 (encoding.encode (encoding.canonical_signed_json signed));
          authenticated_at_utc = encoding.utc_text current;
        };
        envelope_json = request_json;
        signature_b64 = signed.signature_b64;
      }

  -- The checks of the signed operation itself, which give its principal.
  unfoldable pub check_operation : ℕ → Database → SignedOperation → Result TrustedPrincipal
  unfolding get_trusted_principal verify_signature check_window
  check_operation current db signed = do
    let envelope = signed.envelope
    p ←
        or_raise (get_trusted_principal db envelope.principal_id)
          (value_error "Unknown authenticated principal")
    raise_if
        (not (
          p.authentication_scheme == envelope.authentication_scheme && p.key_id == envelope.key_id))
        (value_error "Principal and verification key do not match")
    verify_signature signed p
    issued ←
        or_raise (encoding.utc_datetime envelope.issued_at_utc) (value_error "Invalid timestamp")
    expires ←
        or_raise (encoding.utc_datetime envelope.expires_at_utc) (value_error "Invalid timestamp")
    check_window current issued expires
    ok p

  -- The validated request must have the canonical JSON that was signed.
  unfoldable pub keeps_envelope : SignedOperation → Envelope → Bool
  keeps_envelope signed request =
      encoding.canonical_envelope_json request == encoding.canonical_envelope_json signed.envelope

  -- What follows the checks: the request, and the lookup of a replay.
  unfoldable pub accept_request :
      ℕ → Database → SignedOperation → TrustedPrincipal → Envelope → Authentication
  unfolding failed_evidence find_consumed_authenticated_operation evidence keeps_envelope
  accept_request current db signed p request =
      if keeps_envelope signed request
      then (elim (find_consumed_authenticated_operation db signed.envelope.operation_id
          (request_of current signed p request).principal.proof_hash) [
            | some row ↦
                replay_detected (
                  evidence (request_of current signed p request) VerificationStatus.replay_rejected)
            | none ↦ authenticated (request_of current signed p request)
          ])
      else authentication_failed
          (value_error "Authenticated request normalization changed the signed envelope")
          (failed_evidence (some signed))

  unfoldable pub authenticate_authority_request :
      ℕ → Database → Option SignedOperation → Authentication
  unfolding failed_evidence check_operation accept_request
  authenticate_authority_request current db none =
      authentication_failed
        (permission_error "Authority-sensitive transition requires an authenticated operation")
        (failed_evidence none)
  authenticate_authority_request current db (some signed) =
      elim (check_operation current db signed) [
        | err e ↦ authentication_failed e (failed_evidence (some signed))
        | ok p ↦ elim (encoding.validate_dump signed.envelope) [
          | none ↦ validation_failed (value_error "The envelope does not validate")
          | some request ↦ accept_request current db signed p request
        ]
      ]
