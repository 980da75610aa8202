-- ===== src/Authentication/Accepted.antt =====
-- What the authentication of a signed operation establishes.
use governed_signal_to_conte.Authentication.Operations.{
  AuthenticatedRequest, Envelope, SignedOperation,
}
use governed_signal_to_conte.Authentication.Verify.{
  OperationEncoding, accept_request, authenticate_authority_request, authenticated, check_operation,
  check_window, find_consumed_authenticated_operation, get_trusted_principal, identifies_principal,
  keeps_envelope, request_of, verify_signature,
}
use governed_signal_to_conte.Authentication.Window.{IsValidAt, check_window-IsValidAt}
use governed_signal_to_conte.Base.{
  >>=-eq-ok, Bool-cases, In, List, Option, Option-cases, Result-cases, String, [], any, ap, arith,
  eq_iff, false, find_first, find_first→in, inl, inr, none, not, not-false, ok, ok_injective,
  or_raise, or_raise-some, raise_if, raise_if-false, refl, some, subst, true, ℕ, ◌&&◌, ◌==◌, ◌||◌,
  ◌∷◌, ◌≡◌,
}
use governed_signal_to_conte.Commit.Insert.{has_operation}
use governed_signal_to_conte.Database.{Database}
use governed_signal_to_conte.Effects.Keys.{Keys, public_key_identity}
use governed_signal_to_conte.Tables.{ConsumedOperation, TrustedPrincipal}

pub record IsSigned (k : Keys) (encoding : OperationEncoding k) (signed : SignedOperation)
    (p : TrustedPrincipal) : Type 0 where
  pub raw_public_key : k.Bytes
  pub key_decoded : k.b64decode p.public_key_b64 ≡ some raw_public_key
  pub public_key : k.PublicKey
  pub key_loaded : k.from_public_bytes raw_public_key ≡ some public_key
  pub signature : k.Bytes
  pub signature_decoded : k.b64decode signed.signature_b64 ≡ some signature
  pub signature_canonical : k.b64encode signature ≡ signed.signature_b64
  pub key_identified : identifies_principal (public_key_identity k public_key) p ≡ true
  pub verified_by_key :
      k.verify public_key signature
        (encoding.encode (encoding.canonical_envelope_json signed.envelope))
      ≡ true

-- An operation that is accepted at a time: of a trusted principal, signed with its key, within its
-- window, and not consumed.
pub record IsAuthentic (k : Keys) (encoding : OperationEncoding k) (current : ℕ) (db : Database)
    (signed : SignedOperation) (a : AuthenticatedRequest) : Type 0 where
  pub principal : TrustedPrincipal
  pub trusted : In principal db.trusted_principals
  pub names_principal : principal.principal_id ≡ signed.envelope.principal_id
  pub is_signed : IsSigned k encoding signed principal
  pub issued : ℕ
  pub issued_at : encoding.utc_datetime signed.envelope.issued_at_utc ≡ some issued
  pub expires : ℕ
  pub expires_at : encoding.utc_datetime signed.envelope.expires_at_utc ≡ some expires
  pub valid : IsValidAt current issued expires
  pub unconsumed : has_operation db signed.envelope.operation_id ≡ false
  pub validated : encoding.validate_dump signed.envelope ≡ some a.request
  pub carried :
      encoding.canonical_envelope_json a.request ≡ encoding.canonical_envelope_json signed.envelope
  pub recorded_json : a.envelope_json ≡ encoding.canonical_envelope_json signed.envelope
  pub recorded_hash :
      a.principal.envelope_hash
      ≡ k.sha256 (encoding.encode (encoding.canonical_envelope_json signed.envelope))
  pub identified : a.principal.operation_id ≡ signed.envelope.operation_id

authenticated_injective : (a b : AuthenticatedRequest) → authenticated a ≡ authenticated b → a ≡ b
authenticated_injective a b h = cc

none_consumed :
    (cs : List ConsumedOperation) (operation_id proof_hash : String)
    → find_first
        (λ c. c.operation.operation_id == operation_id || c.operation.proof_hash == proof_hash)
        cs
      ≡ none
    → any (λ c. c.operation.operation_id == operation_id) cs ≡ false
none_consumed [] operation_id proof_hash h = refl
none_consumed (c ∷ cs) operation_id proof_hash h =
    ground (arith, none_consumed cs operation_id proof_hash)

module _ (k : Keys) (encoding : OperationEncoding k) where
  verify_signature-IsSigned :
      (signed : SignedOperation) (p : TrustedPrincipal) (u : Unit {0})
      → verify_signature k encoding signed p ≡ ok u
      → IsSigned k encoding signed p
  unfolding verify_signature
  verify_signature-IsSigned signed p u h =
      let (raw, e₁, h₁) = >>=-eq-ok (or_raise (k.b64decode p.public_key_b64) _) _ h in
      let (signature, e₂, h₂) = >>=-eq-ok (or_raise (k.b64decode signed.signature_b64) _) _ h₁ in
      let canonical = k.b64encode signature == signed.signature_b64 in
      let (a, e₃, h₃) = >>=-eq-ok (raise_if (not canonical) _) _ h₂ in
      let (public_key, e₄, h₄) = >>=-eq-ok (or_raise (k.from_public_bytes raw) _) _ h₃ in
      let identified = identifies_principal (public_key_identity k public_key) p in
      let (b, e₅, h₅) = >>=-eq-ok (raise_if (not identified) _) _ h₄ in
      let checked =
        k.verify public_key signature
          (encoding.encode (encoding.canonical_envelope_json signed.envelope)) in
      record {
        raw_public_key = raw;
        key_decoded = or_raise-some _ _ raw e₁;
        public_key = public_key;
        key_loaded = or_raise-some _ _ public_key e₄;
        signature = signature;
        signature_decoded = or_raise-some _ _ signature e₂;
        signature_canonical =
            (eq_iff (k.b64encode signature) signed.signature_b64).0
              (not-false canonical (raise_if-false (not canonical) _ a e₃));
        key_identified = not-false identified (raise_if-false (not identified) _ b e₅);
        verified_by_key = not-false checked (raise_if-false (not checked) _ u h₅);
      }

  -- Everything but the consumption.
  record PassesChecks (current : ℕ) (db : Database) (signed : SignedOperation)
      (principal : TrustedPrincipal) : Type 0 where
    found : get_trusted_principal db signed.envelope.principal_id ≡ some principal
    is_signed : IsSigned k encoding signed principal
    issued : ℕ
    issued_at : encoding.utc_datetime signed.envelope.issued_at_utc ≡ some issued
    expires : ℕ
    expires_at : encoding.utc_datetime signed.envelope.expires_at_utc ≡ some expires
    valid : IsValidAt current issued expires

  check_operation-PassesChecks :
      (current : ℕ) (db : Database) (signed : SignedOperation) (q : TrustedPrincipal)
      → check_operation k encoding current db signed ≡ ok q
      → PassesChecks current db signed q
  unfolding check_operation
  check_operation-PassesChecks current db signed q h =
      let (p, e₁, h₁) =
        >>=-eq-ok (or_raise (get_trusted_principal db signed.envelope.principal_id) _) _ h in
      let same_key =
        p.authentication_scheme == signed.envelope.authentication_scheme
        && p.key_id == signed.envelope.key_id in
      let (u, e₂, h₂) = >>=-eq-ok (raise_if (not same_key) _) _ h₁ in
      let (v, e₃, h₃) = >>=-eq-ok (verify_signature k encoding signed p) _ h₂ in
      let (issued, e₄, h₄) =
        >>=-eq-ok (or_raise (encoding.utc_datetime signed.envelope.issued_at_utc) _) _ h₃ in
      let (expires, e₅, h₅) =
        >>=-eq-ok (or_raise (encoding.utc_datetime signed.envelope.expires_at_utc) _) _ h₄ in
      let (w, e₆, h₆) = >>=-eq-ok (check_window current issued expires) _ h₅ in
      subst (PassesChecks current db signed) (ok_injective p q h₆) (record {
        found = or_raise-some _ _ p e₁;
        is_signed = verify_signature-IsSigned signed p v e₃;
        issued = issued;
        issued_at = or_raise-some _ _ issued e₄;
        expires = expires;
        expires_at = or_raise-some _ _ expires e₅;
        valid = check_window-IsValidAt current issued expires w e₆;
      })

  accepted-IsAuthentic :
      (current : ℕ) (db : Database) (signed : SignedOperation) (p : TrustedPrincipal)
      (request : Envelope)
      → PassesChecks current db signed p
      → encoding.validate_dump signed.envelope ≡ some request
      → keeps_envelope k encoding signed request ≡ true
      → find_consumed_authenticated_operation db signed.envelope.operation_id
          (request_of k encoding current signed p request).principal.proof_hash
        ≡ none
      → IsAuthentic k encoding current db signed (request_of k encoding current signed p request)
  unfolding get_trusted_principal find_consumed_authenticated_operation keeps_envelope
  accepted-IsAuthentic current db signed p request c v same_json n =
      let (m, e) =
        find_first→in (λ p. p.principal_id == signed.envelope.principal_id) db.trusted_principals
          c.found in
      let same =
        (eq_iff (encoding.canonical_envelope_json request)
            (encoding.canonical_envelope_json signed.envelope)).0
          same_json in
      record {
        principal = p;
        trusted = m;
        names_principal = (eq_iff p.principal_id signed.envelope.principal_id).0 e;
        is_signed = c.is_signed;
        issued = c.issued;
        issued_at = c.issued_at;
        expires = c.expires;
        expires_at = c.expires_at;
        valid = c.valid;
        unconsumed = none_consumed db.authenticated_operations signed.envelope.operation_id _ n;
        validated = v;
        carried = same;
        recorded_json = same;
        recorded_hash = ap (λ z. k.sha256 (encoding.encode z)) same;
        identified = refl;
      }

  accept_request-IsAuthentic :
      (current : ℕ) (db : Database) (signed : SignedOperation) (p : TrustedPrincipal)
      (request : Envelope) (a : AuthenticatedRequest)
      → PassesChecks current db signed p
      → encoding.validate_dump signed.envelope ≡ some request
      → accept_request k encoding current db signed p request ≡ authenticated a
      → IsAuthentic k encoding current db signed a
  unfolding accept_request
  accept_request-IsAuthentic current db signed p request a c v h =
      let made = request_of k encoding current signed p request in
      elim (Bool-cases (keeps_envelope k encoding signed request)) [
        | inr e ↦ absurd (ground (arith, e, h))
        | inl e ↦
            elim (Option-cases (
              find_consumed_authenticated_operation db signed.envelope.operation_id
                made.principal.proof_hash)) [
                  | inr (row, f) ↦ absurd (ground (arith, e, f, h))
                  | inl f ↦
                      subst (IsAuthentic k encoding current db signed)
                        (authenticated_injective made a (rw (e, accept_request, f) at h))
                        (accepted-IsAuthentic current db signed p request c v e f)
                ]
      ]

  authenticated-cases :
      (current : ℕ) (db : Database) (signed : SignedOperation) (a : AuthenticatedRequest)
      → authenticate_authority_request k encoding current db (some signed) ≡ authenticated a
      → IsAuthentic k encoding current db signed a
  unfolding authenticate_authority_request
  authenticated-cases current db signed a h =
      elim (Result-cases (check_operation k encoding current db signed)) [
        | inr (x, e) ↦ absurd (ground (arith, e, h))
        | inl (p, e) ↦ elim (Option-cases (encoding.validate_dump signed.envelope)) [
          | inl f ↦ absurd (ground (arith, e, f, h))
          | inr (request, f) ↦
              accept_request-IsAuthentic current db signed p request a
                (check_operation-PassesChecks current db signed p e) f
                (rw (e, authenticate_authority_request, f) at h)
        ]
      ]

-- An operation that authenticates is signed with the stored key of the trusted principal it names,
-- over its own envelope; at that time it was issued at most 30 seconds ahead, had not expired, and
-- expires at most 600 seconds after its issue; and no consumed operation has its id. The request
-- is the signed envelope, validated again, and has the canonical JSON that was signed, which is also
-- recorded with its hash.
pub authenticate_authority_request-IsAuthentic :
    (k : Keys) (encoding : OperationEncoding k) (current : ℕ) (db : Database)
    (signed : Option SignedOperation) (a : AuthenticatedRequest)
    → authenticate_authority_request k encoding current db signed ≡ authenticated a
    → (given : SignedOperation) × (signed ≡ some given) × IsAuthentic k encoding current db given a
unfolding authenticate_authority_request
authenticate_authority_request-IsAuthentic k encoding current db none a h = cc
authenticate_authority_request-IsAuthentic k encoding current db (some signed) a h =
    (signed, refl, authenticated-cases k encoding current db signed a h)
