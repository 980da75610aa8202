-- ===== src/Effects/Trust.antt =====
-- Which results are recorded.
use governed_signal_to_conte.Base.{
  In, Option, String, any, ap, eq_iff, find_first→in, is_some, ok, some, true, ◌==◌, ◌∙◌, ◌≡◌,
}
use governed_signal_to_conte.Chain.Material.{Material}
use governed_signal_to_conte.Effects.Ingest.{record_signed_executor_result}
use governed_signal_to_conte.Effects.Keys.{Keys, ResultEncoding, SignedResult}
use governed_signal_to_conte.Effects.Record.{EffectWorkspace, Host}
use governed_signal_to_conte.Effects.Rows.{find_dispatch, find_request, result_of}
use governed_signal_to_conte.Effects.Signature.{
  IsSignedBy, verify_executor_result_signature-IsSignedBy,
}
use governed_signal_to_conte.Effects.Tables.{EffectExecutor, EffectResult, Ledger}
use governed_signal_to_conte.Effects.Twice.{call-IsAnswered}

-- A row answers a claim under the proof of a registered executor.
pub record IsTrusted (k : Keys) (encoding : ResultEncoding k) (signed : SignedResult)
    (r : EffectResult) (l : Ledger) : Type 0 where
  pub executor : EffectExecutor
  pub registered : In executor l.executors
  pub authentic : IsSignedBy k encoding signed executor
  pub allowed_adapter :
      any (λ a. a == signed.envelope.adapter_id) executor.allowed_adapter_ids ≡ true
  pub answers_claim : result_of l.results signed.envelope.dispatch_id ≡ some r
  pub claim_known : is_some (find_dispatch l signed.envelope.dispatch_id) ≡ true
  pub request_known : is_some (find_request l signed.envelope.effect_id) ≡ true
  pub proof_kept : r.proof_hash ≡ k.sha256 (encoding.canonical_signed_result signed)

-- Where the call returns a row, whether stored now or before, the row answers the claim that the
-- result names; and an executor of the tables, allowed to use the adapter, has signed exactly this
-- envelope with the key it was registered with.
pub record_signed_executor_result-IsTrusted :
    (H : Material → String) (k : Keys) (encoding : ResultEncoding k) (host : Host)
    (signed : SignedResult) (actor : Option String) (r : EffectResult) (w w' : EffectWorkspace)
    → record_signed_executor_result H k encoding host signed actor w ≡ (ok r, w')
    → IsTrusted k encoding signed r w'.ledger
record_signed_executor_result-IsTrusted H k encoding host signed actor r w w' h =
    let a = call-IsAnswered k encoding H signed host actor r w w' h in
    let v = a.verified in
    let (authentic, proof) =
      verify_executor_result_signature-IsSignedBy k encoding signed v.executor v.proof
        v.signature in
    record {
      executor = v.executor;
      registered =
          (find_first→in (λ x. x.executor_id == signed.envelope.executor_id) w'.ledger.executors
            v.executor_found).0;
      authentic = authentic;
      allowed_adapter = v.registered;
      answers_claim = a.found;
      claim_known = ap is_some v.claimed;
      request_known = ap is_some v.requested;
      proof_kept = (eq_iff r.proof_hash v.proof.proof_hash).0 a.same_proof ∙ proof;
    }
