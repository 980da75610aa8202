-- ===== src/Effects/Signature.antt =====
-- What the signature check of effect_protocol.py establishes.
use governed_signal_to_conte.Base.{
  >>=-eq-ok, Bool, ap, false, not, not-false, ok, ok_injective, or_raise, or_raise-some, raise_if,
  raise_if-false, refl, some, sym, true, ◌&&◌, ◌==◌, ◌≡◌,
}
use governed_signal_to_conte.Effects.Keys.{
  Keys, ResultEncoding, ResultProof, SignedResult, identifies_executor, public_key_identity,
  result_proof, verify_executor_result_signature,
}
use governed_signal_to_conte.Effects.Tables.{EffectExecutor}

-- What the signature check of a result has established, in terms of the packages that do it.
pub record IsSignedBy (k : Keys) (encoding : ResultEncoding k) (signed : SignedResult)
    (x : EffectExecutor) : Type 0 where
  pub same_executor : (signed.envelope.executor_id == x.executor_id) ≡ true
  pub same_key : (signed.envelope.executor_key_id == x.key_id) ≡ true
  pub raw_public : k.Bytes
  pub key_decoded : k.b64decode x.public_key_b64 ≡ some raw_public
  pub public_key : k.PublicKey
  pub key_loaded : k.from_public_bytes raw_public ≡ some public_key
  pub fingerprint : (k.sha256 (k.public_bytes public_key) == x.verifier_fingerprint) ≡ true
  pub signature : k.Bytes
  pub signature_decoded : k.b64decode signed.signature_b64 ≡ some signature
  pub verified_by_key :
      k.verify public_key signature (encoding.canonical_executor_result signed.envelope) ≡ true

-- A test of three parts that does not raise.
three : (a b c : Bool) → not (a && b && c) ≡ false → (a ≡ true) × (b ≡ true) × (c ≡ true)
three true true true h = (refl, refl, refl)
three true true false h = cc
three true false c h = cc
three false b c h = cc

module _ (k : Keys) (encoding : ResultEncoding k) where
  pub verify_executor_result_signature-IsSignedBy :
      (signed : SignedResult) (x : EffectExecutor) (proof : ResultProof)
      → verify_executor_result_signature k encoding signed x ≡ ok proof
      → IsSignedBy k encoding signed x
        × (proof.proof_hash ≡ k.sha256 (encoding.canonical_signed_result signed))
  unfolding verify_executor_result_signature identifies_executor public_key_identity
  verify_executor_result_signature-IsSignedBy signed x proof h =
      let (u, e₁, h₁) = >>=-eq-ok (raise_if _ _) _ h in
      let (raw_public, e₂, h₂) = >>=-eq-ok (or_raise (k.b64decode x.public_key_b64) _) _ h₁ in
      let (signature, e₃, h₃) = >>=-eq-ok (or_raise (k.b64decode signed.signature_b64) _) _ h₂ in
      let (public_key, e₄, h₄) = >>=-eq-ok (or_raise (k.from_public_bytes raw_public) _) _ h₃ in
      let identity = public_key_identity k public_key in
      let (v, e₅, h₅) = >>=-eq-ok (raise_if (not (identifies_executor identity x)) _) _ h₄ in
      let checked =
        k.verify public_key signature (encoding.canonical_executor_result signed.envelope) in
      let (z, e₆, h₆) = >>=-eq-ok (raise_if (not checked) _) _ h₅ in
      let (a, b, c) = three _ _ _ (raise_if-false _ _ u e₁) in
      let (f, g, i) =
        three (identity.key_id == x.key_id) (identity.fingerprint == x.verifier_fingerprint)
          (identity.public_key_b64 == x.public_key_b64)
          (raise_if-false (not (identifies_executor identity x)) _ v e₅) in
      (
        record {
          same_executor = a;
          same_key = b;
          raw_public = raw_public;
          key_decoded = or_raise-some _ _ raw_public e₂;
          public_key = public_key;
          key_loaded = or_raise-some _ _ public_key e₄;
          fingerprint = g;
          signature = signature;
          signature_decoded = or_raise-some _ _ signature e₃;
          verified_by_key = not-false checked (raise_if-false (not checked) _ z e₆);
        },
        ap (λ y. y.proof_hash) (sym (ok_injective (result_proof k encoding signed) proof h₆)),
      )
