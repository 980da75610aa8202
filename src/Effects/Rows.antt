-- ===== src/Effects/Rows.antt =====
-- The INSERT statements of the effect tables with the constraints of their tables (database.py).
use governed_signal_to_conte.Base.{
  List, Option, Result, String, [], any, codes, find_first, integrity_error, is_some, leb, length,
  nat_eq, not, ok, raise_if, ◌&&◌, ◌++◌, ◌==◌, ◌>>◌, ◌∷◌,
}
use governed_signal_to_conte.Commit.Insert.{has_event, has_id_format, has_principal}
use governed_signal_to_conte.Effects.Tables.{EffectDispatch, EffectRequest, EffectResult, Ledger}
use governed_signal_to_conte.Scope.{is_prefix}

abbrev pub find_request : Ledger → String → Option EffectRequest
find_request l effect_id = find_first (λ q. q.effect_id == effect_id) l.requests

abbrev pub find_dispatch : Ledger → String → Option EffectDispatch
find_dispatch l dispatch_id = find_first (λ d. d.dispatch_id == dispatch_id) l.dispatches

-- `LEFT JOIN external_effect_results AS r ON r.dispatch_id = d.dispatch_id`
abbrev pub result_of : List EffectResult → String → Option EffectResult
result_of results dispatch_id = find_first (λ r. r.envelope.dispatch_id == dispatch_id) results

unfoldable pub insert_dispatch : EffectDispatch → Ledger → Result Ledger
insert_dispatch d l = do
  raise_if (not (has_id_format "dispatch_" 32 d.dispatch_id && leb 1 d.attempt_number))
      (integrity_error "CHECK constraint failed: external_effect_dispatches")
  raise_if (is_some (find_dispatch l d.dispatch_id))
      (integrity_error "UNIQUE constraint failed: external_effect_dispatches.dispatch_id")
  raise_if (any (λ e. e.dispatch_event_id == d.dispatch_event_id) l.dispatches)
      (integrity_error "UNIQUE constraint failed: external_effect_dispatches.dispatch_event_id")
  raise_if
      (any (λ e. e.effect_id == d.effect_id && nat_eq e.attempt_number d.attempt_number)
        l.dispatches)
      (integrity_error
        "UNIQUE constraint failed: external_effect_dispatches.effect_id, attempt_number")
  raise_if (not (is_some (find_request l d.effect_id) && has_event l.database d.dispatch_event_id))
      (integrity_error "FOREIGN KEY constraint failed")
  ok (record l { dispatches = l.dispatches ++ d ∷ [] })

unfoldable pub insert_result : EffectResult → Ledger → Result Ledger
insert_result r l = do
  raise_if
      (not (
        has_id_format "result_" 32 r.envelope.result_id
        && r.envelope.adapter_id == "test.capture"
        && r.envelope.scope.scope_version == "1.0"))
      (integrity_error "CHECK constraint failed: external_effect_results")
  raise_if (any (λ s. s.envelope.result_id == r.envelope.result_id) l.results)
      (integrity_error "UNIQUE constraint failed: external_effect_results.result_id")
  raise_if (is_some (result_of l.results r.envelope.dispatch_id))
      (integrity_error "UNIQUE constraint failed: external_effect_results.dispatch_id")
  raise_if (any (λ s. s.proof_hash == r.proof_hash) l.results)
      (integrity_error "UNIQUE constraint failed: external_effect_results.proof_hash")
  raise_if (any (λ s. s.result_event_id == r.result_event_id) l.results)
      (integrity_error "UNIQUE constraint failed: external_effect_results.result_event_id")
  raise_if
      (not (
        is_some (find_request l r.envelope.effect_id)
        && is_some (find_dispatch l r.envelope.dispatch_id)
        && any (λ x. x.executor_id == r.envelope.executor_id) l.executors
        && any (λ b. b.binding_id == r.envelope.destination_binding_id) l.bindings
        && has_event l.database r.result_event_id))
      (integrity_error "FOREIGN KEY constraint failed")
  ok (record l { results = l.results ++ r ∷ [] })

unfoldable pub insert_request : EffectRequest → Ledger → Result Ledger
insert_request q l = do
  raise_if
      (not (
        has_id_format "effect_" 32 q.effect_id
        && q.capability == "packet.release"
        && q.scope.scope_version == "1.0"
        && q.adapter_id == "test.capture"
        && leb 1 q.release_event_sequence
        && is_prefix (codes "idem_") (codes q.idempotency_key)
        && nat_eq (length (codes q.idempotency_key)) 69
        && nat_eq (length (codes q.request_hash)) 64))
      (integrity_error "CHECK constraint failed: external_effect_requests")
  raise_if (is_some (find_request l q.effect_id))
      (integrity_error "UNIQUE constraint failed: external_effect_requests.effect_id")
  raise_if (any (λ p. p.release_event_id == q.release_event_id) l.requests)
      (integrity_error "UNIQUE constraint failed: external_effect_requests.release_event_id")
  raise_if (any (λ p. p.idempotency_key == q.idempotency_key) l.requests)
      (integrity_error "UNIQUE constraint failed: external_effect_requests.idempotency_key")
  raise_if (any (λ p. p.request_hash == q.request_hash) l.requests)
      (integrity_error "UNIQUE constraint failed: external_effect_requests.request_hash")
  raise_if (any (λ p. p.request_event_id == q.request_event_id) l.requests)
      (integrity_error "UNIQUE constraint failed: external_effect_requests.request_event_id")
  raise_if
      (not (
        has_event l.database q.release_event_id
        && any (λ p. p.packet_id == q.packet_id) l.database.packets
        && any (λ c. c.candidate_id == q.candidate_id) l.database.candidates
        && any (λ a. a.approval_id == q.approval_id) l.database.approvals
        && has_event l.database q.approval_event_id
        && has_principal l.database q.authenticated_principal_id
        && any (λ g. g.grant_id == q.authorizing_grant_id) l.database.capability_grants
        && any (λ b. b.binding_id == q.destination_binding_id) l.bindings
        && has_event l.database q.request_event_id))
      (integrity_error "FOREIGN KEY constraint failed")
  ok (record l { requests = l.requests ++ q ∷ [] })
