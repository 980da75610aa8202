-- ===== src/Effects/Changes.antt =====
-- Each call makes one of the changes of Steps.
use governed_signal_to_conte.Base.{
  >>=-eq-ok, Option, Result, Result-cases, String, ap, err, false, inl, inr, key_error, ok,
  or_raise, raise_if, raise_if-false, sym, ◌>>=◌, ◌∙◌, ◌≡◌,
}
use governed_signal_to_conte.Chain.Material.{Material}
use governed_signal_to_conte.Commit.Progress.{find_packet}
use governed_signal_to_conte.Effects.Answer.{result_transaction-Verified}
use governed_signal_to_conte.Effects.Claim.{claim_external_effect, claim_transaction}
use governed_signal_to_conte.Effects.Create.{
  Requested, create_external_effect_request, created_request, found_request, request_effect,
  request_transaction,
}
use governed_signal_to_conte.Effects.Created.{
  request_transaction-RequestOutcome, was_created, was_found,
}
use governed_signal_to_conte.Effects.Envelopes.{breaks_result_semantics, require_result_semantics}
use governed_signal_to_conte.Effects.Frame.{claim_transaction-Claimed}
use governed_signal_to_conte.Effects.Ingest.{
  Recorded, existing_result, record_signed_executor_result, result_transaction, stored_result,
}
use governed_signal_to_conte.Effects.Keys.{Keys, ResultEncoding, SignedResult}
use governed_signal_to_conte.Effects.Record.{EffectWorkspace, Host}
use governed_signal_to_conte.Effects.Request.{EffectMaterial}
use governed_signal_to_conte.Effects.Steps.{
  Call, Change, SameClaims, answers, claims, new_answer, new_claim, new_request, no_claim,
  project_effect_event-SameClaims, requests,
}
use governed_signal_to_conte.Effects.Tables.{
  EffectDispatch, EffectRequest, EffectResult, ExecutorResult, Ledger,
}
use governed_signal_to_conte.Packets.Manifest.{PacketFiles}
use governed_signal_to_conte.Tables.{Packet}

abbrev claim_outcome :
    Result EffectDispatch → EffectWorkspace → Result EffectDispatch × EffectWorkspace
claim_outcome o w = (o, w)

abbrev request_outcome :
    Result EffectRequest → EffectWorkspace → Result EffectRequest × EffectWorkspace
request_outcome o w = (o, w)

abbrev answer_outcome :
    Result EffectResult → EffectWorkspace → Result EffectResult × EffectWorkspace
answer_outcome o w = (o, w)

SameClaims-after : (l m l' : Ledger) → m ≡ l → SameClaims m l' → SameClaims l l'
SameClaims-after l m l' same p = record {
  same_requests = p.same_requests ∙ ap (λ x. x.requests) same;
  same_dispatches = p.same_dispatches ∙ ap (λ x. x.dispatches) same;
  same_results = p.same_results ∙ ap (λ x. x.results) same;
}

same_workspace-SameClaims : (w w' : EffectWorkspace) → w ≡ w' → SameClaims w.ledger w'.ledger
same_workspace-SameClaims w w' h = record {
  same_requests = sym (ap (λ x. x.ledger.requests) h);
  same_dispatches = sym (ap (λ x. x.ledger.dispatches) h);
  same_results = sym (ap (λ x. x.ledger.results) h);
}

require_result_semantics-false :
    (r : ExecutorResult) → require_result_semantics r ≡ ok tt → breaks_result_semantics r ≡ false
unfolding require_result_semantics
require_result_semantics-false r h =
    let (u, e, rest) = >>=-eq-ok (raise_if (breaks_result_semantics r) _) _ h in
    raise_if-false (breaks_result_semantics r) _ u e

module _ (H : Material → String) (G : EffectMaterial → String) (k : Keys)
    (encoding : ResultEncoding k) where
  claim_external_effect-Change :
      (host : Host) (effect_id : String) (actor : Option String) (o : Result EffectDispatch)
      (w w' : EffectWorkspace)
      → claim_external_effect H host effect_id actor w ≡ (o, w')
      → Change G k encoding w.ledger w'.ledger
  unfolding claim_external_effect
  claim_external_effect-Change host effect_id actor o w w' h =
      elim (Result-cases (claim_transaction H host effect_id actor w.ledger)) [
        | inl ((d, m), e) ↦
            new_claim effect_id d m
              (claim_transaction-Claimed H host effect_id actor d w.ledger m e)
              (project_effect_event-SameClaims H host.projected_at_utc host.event_id d
                (record w { ledger = m }) w' o (rw (e, claim_external_effect) at h))
        | inr (x, e) ↦
            let same : claim_outcome (err x) w ≡ claim_outcome o w' =
              rw (e, claim_external_effect) at h in
            no_claim (same_workspace-SameClaims w w' (ap (λ y. y.1) same))
      ]

  recorded-Change :
      (host : Host) (signed : SignedResult) (actor : Option String) (r : Recorded)
      (w : EffectWorkspace) (l' : Ledger) (m : Ledger)
      → require_result_semantics signed.envelope ≡ ok tt
      → result_transaction H k encoding host signed actor w.ledger ≡ ok (r, m)
      → SameClaims m l'
      → Change G k encoding w.ledger l'
  recorded-Change host signed actor r w l' m s e p =
      let (v, c) = result_transaction-Verified H k encoding host signed actor r w.ledger m e in
      elim c [
        | inl reread ↦ no_claim (SameClaims-after w.ledger m l' reread.unchanged p)
        | inr n ↦
            new_answer signed v host.event_id r m n
              (require_result_semantics-false signed.envelope s) p
      ]

  record_signed_executor_result-Change :
      (host : Host) (signed : SignedResult) (actor : Option String) (o : Result EffectResult)
      (w w' : EffectWorkspace)
      → require_result_semantics signed.envelope ≡ ok tt
      → record_signed_executor_result H k encoding host signed actor w ≡ (o, w')
      → Change G k encoding w.ledger w'.ledger
  unfolding record_signed_executor_result
  record_signed_executor_result-Change host signed actor o w w' s h =
      elim (Result-cases (result_transaction H k encoding host signed actor w.ledger)) [
        | inl ((existing_result r, m), e) ↦
            let same : answer_outcome (ok r) (record w { ledger = m }) ≡ answer_outcome o w' =
              rw (e, record_signed_executor_result) at h in
            recorded-Change host signed actor (existing_result r) w w'.ledger m s e
              (same_workspace-SameClaims (record w { ledger = m }) w' (ap (λ y. y.1) same))
        | inl ((stored_result r, m), e) ↦
            recorded-Change host signed actor (stored_result r) w w'.ledger m s e (
              project_effect_event-SameClaims H host.projected_at_utc host.event_id r
                (record w { ledger = m }) w' o (rw (e, record_signed_executor_result) at h))
        | inr (x, e) ↦
            let same : answer_outcome (err x) w ≡ answer_outcome o w' =
              rw (e, record_signed_executor_result) at h in
            no_claim (same_workspace-SameClaims w w' (ap (λ y. y.1) same))
      ]

  created-Change :
      (host : Host) (packet_id : String) (actor : Option String) (files : PacketFiles)
      (again : Packet → Result PacketFiles) (r : Requested) (w : EffectWorkspace) (m l' : Ledger)
      → request_transaction H G host packet_id actor files again w.ledger ≡ ok (r, m)
      → SameClaims m l'
      → Change G k encoding w.ledger l'
  created-Change host packet_id actor files again r w m l' e p =
      elim (request_transaction-RequestOutcome H G host packet_id actor files again r w.ledger m
        e) [
          | was_found q found made same there matches ↦
              no_claim (SameClaims-after w.ledger m l' same p)
          | was_created q found made none_there derived read_again ↦
              new_request host found.packet files q m derived p
        ]

  request_effect-Change :
      (host : Host) (packet_id : String) (actor : Option String) (files : PacketFiles)
      (again : Packet → Result PacketFiles) (o : Result EffectRequest) (w w' : EffectWorkspace)
      → request_effect H G host packet_id actor files again w ≡ (o, w')
      → Change G k encoding w.ledger w'.ledger
  unfolding request_effect
  request_effect-Change host packet_id actor files again o w w' h =
      elim (Result-cases (request_transaction H G host packet_id actor files again w.ledger)) [
        | inr (x, e) ↦
            let same : request_outcome (err x) w ≡ request_outcome o w' =
              rw (e, request_effect) at h in
            no_claim (same_workspace-SameClaims w w' (ap (λ y. y.1) same))
        | inl ((found_request q, m), e) ↦
            let same : request_outcome (ok q) (record w { ledger = m }) ≡ request_outcome o w' =
              rw (e, request_effect) at h in
            created-Change host packet_id actor files again (found_request q) w m w'.ledger e
              (same_workspace-SameClaims (record w { ledger = m }) w' (ap (λ y. y.1) same))
        | inl ((created_request q, m), e) ↦
            created-Change host packet_id actor files again (created_request q) w m w'.ledger e (
              project_effect_event-SameClaims H host.projected_at_utc host.event_id q
                (record w { ledger = m }) w' o (rw (e, request_effect) at h))
      ]

  create_external_effect_request-Change :
      (host : Host) (packet_id : String) (actor : Option String)
      (before again : Packet → Result PacketFiles) (o : Result EffectRequest)
      (w w' : EffectWorkspace)
      → create_external_effect_request H G host packet_id actor before again w ≡ (o, w')
      → Change G k encoding w.ledger w'.ledger
  unfolding create_external_effect_request
  create_external_effect_request-Change host packet_id actor before again o w w' h =
      elim (Result-cases (
        or_raise (find_packet w.ledger.database packet_id) (key_error "Unknown packet")
        >>= before)) [
          | inr (x, e) ↦
              let same : request_outcome (err x) w ≡ request_outcome o w' =
                rw (e, create_external_effect_request) at h in
              no_claim (same_workspace-SameClaims w w' (ap (λ y. y.1) same))
          | inl (files, e) ↦
              request_effect-Change host packet_id actor files again o w w'
                (rw (e, create_external_effect_request) at h)
        ]

  pub Call-Change :
      {w w' : EffectWorkspace} → Call H G k encoding w w' → Change G k encoding w.ledger w'.ledger
  Call-Change {w} {w'} (claims host effect_id actor o h) =
      claim_external_effect-Change host effect_id actor o w w' h
  Call-Change {w} {w'} (answers host signed actor o s h) =
      record_signed_executor_result-Change host signed actor o w w' s h
  Call-Change {w} {w'} (requests host packet_id actor before again o h) =
      create_external_effect_request-Change host packet_id actor before again o w w' h
