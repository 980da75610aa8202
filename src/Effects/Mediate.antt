-- ===== src/Effects/Mediate.antt =====
-- `mediate_execution_management` (external_effects.py): authentication, the record of a replay, and
-- the transaction of Management.
use governed_signal_to_conte.Authentication.Operations.{AuthenticatedRequest, SignedOperation}
use governed_signal_to_conte.Authentication.Verify.{
  OperationEncoding, authenticate_authority_request, authenticated, authentication_failed,
  replay_detected, validation_failed,
}
use governed_signal_to_conte.Authorization.Decision.{not_evaluated_decision}
use governed_signal_to_conte.Base.{
  Error, Option, Result, String, err, if◌then◌else◌, none, ok, permission_error, some, text_append,
  value_error, ℕ, ◌>>=◌,
}
use governed_signal_to_conte.Chain.Material.{Material}
use governed_signal_to_conte.Commit.Progress.{record_transition_event}
use governed_signal_to_conte.Database.{Transaction}
use governed_signal_to_conte.Effects.Keys.{Keys}
use governed_signal_to_conte.Effects.Management.{
  Managed, Target, execution_request, management_event, management_result, management_target,
  management_transaction, refused, registered,
}
use governed_signal_to_conte.Effects.Record.{EffectWorkspace, Host, project_effect_event}
use governed_signal_to_conte.Effects.Tables.{LedgerTransaction}
use governed_signal_to_conte.Json.{end}
use governed_signal_to_conte.Models.{
  AuthorizationDecision, AuthorizationReason, effect_manage_bindings, is_allowed,
}
use governed_signal_to_conte.Receipts.Events.{new_receipt, transition_event_from_receipt}
use governed_signal_to_conte.Receipts.Fields.{AuthenticationEvidence, RunReceipt}
use governed_signal_to_conte.Tables.{Outcome}

-- What the operation needs of its surroundings.
pub record Mediation (k : Keys) : Type 0 where
  pub host : Host
  pub encoding : OperationEncoding k
  pub current : ℕ
  pub asserted_actor : String
  pub consumed_at_utc : String

unfoldable pub replay_receipt :
    Host
    → String
    → String
    → Target
    → AuthenticationEvidence
    → AuthorizationDecision
    → Result RunReceipt
unfolding new_receipt
replay_receipt host asserted_actor operation_id t shown d = new_receipt (host.stamp) (record {
  command = t.command;
  actor = asserted_actor;
  input_identifiers = t.identifiers;
  prior_state = none;
  requested_transition = none;
  resulting_state = none;
  outcome = Outcome.rejected;
  reason = text_append "Authenticated operation has already been consumed: " operation_id;
  file_hashes = end;
  authentication = some shown;
  authorization = some d;
})

abbrev pub replay_error : Error
replay_error = value_error "Authenticated operation has already been consumed"

-- A transaction on the first database, on all tables.
unfoldable pub on_database : {A : Type 0} → Transaction A → LedgerTransaction A
on_database body l = do (a, database) ← body l.database; ok (a, record l { database = database })

module _ (canonical_json_hash : Material → String) (k : Keys) where
  -- `_record_management_replay`, where the evidence names a principal.
  unfoldable pub replay_transaction :
      Host
      → String
      → String
      → Target
      → AuthenticationEvidence
      → String
      → LedgerTransaction (Unit {0})
  unfolding not_evaluated_decision replay_receipt record_transition_event on_database
      transition_event_from_receipt
  replay_transaction host asserted_actor operation_id t shown principal_id l = do
    d ←
        not_evaluated_decision effect_manage_bindings AuthorizationReason.replay_rejected
          (execution_request principal_id)
    receipt ← replay_receipt host asserted_actor operation_id t shown d
    on_database (record_transition_event canonical_json_hash (management_event t receipt) none) l

  -- The replay is recorded, and then raised.
  unfoldable pub record_management_replay :
      Host
      → String
      → SignedOperation
      → AuthenticationEvidence
      → EffectWorkspace
      → Result Managed × EffectWorkspace
  unfolding management_target replay_transaction project_effect_event
  record_management_replay host asserted_actor signed shown w =
      elim (management_target signed.envelope.operation_id signed.envelope.request) [
        | none ↦ (err replay_error, w)
        | some t ↦ elim shown.authenticated_principal_id [
          | none ↦ (err replay_error, w)
          | some principal_id ↦
              elim (replay_transaction host asserted_actor signed.envelope.operation_id t shown
                principal_id w.ledger) [
                  | err e ↦ (err e, w)
                  | ok (_, l) ↦
                      let (outcome, w') =
                        project_effect_event canonical_json_hash host.projected_at_utc
                          host.stamp.run_id tt (record w { ledger = l }) in
                      (outcome >>= λ _. err replay_error, w')
                ]
        ]
      ]

  -- The authenticated request: the transaction, the projection, and the result.
  unfoldable pub manage :
      Mediation k → AuthenticatedRequest → EffectWorkspace → Result Managed × EffectWorkspace
  unfolding management_target management_transaction management_result project_effect_event
  manage m a w = elim (management_target a.request.operation_id a.request.request) [
    | none ↦ (err (value_error "Authenticated operation is not execution management"), w)
    | some t ↦
        elim (management_transaction canonical_json_hash m.host a t m.asserted_actor
          m.consumed_at_utc w.ledger) [
            | err e ↦ (err e, w)
            | ok (d, l) ↦
                let result = management_result a.request t d m.host.stamp.run_id in
                project_effect_event canonical_json_hash m.host.projected_at_utc m.host.stamp.run_id
                  (if is_allowed d then registered result else refused d result)
                  (record w { ledger = l })
          ]
  ]

  unfoldable pub mediate_execution_management :
      Mediation k → Option SignedOperation → EffectWorkspace → Result Managed × EffectWorkspace
  unfolding authenticate_authority_request record_management_replay manage
  mediate_execution_management m none w = (
    err (permission_error "Authority-sensitive transition requires an authenticated operation"),
    w,
  )
  mediate_execution_management m (some signed) w =
      elim (authenticate_authority_request k m.encoding m.current w.ledger.database (some signed)) [
        | authentication_failed e shown ↦ (err e, w)
        | validation_failed e ↦ (err e, w)
        | replay_detected shown ↦ record_management_replay m.host m.asserted_actor signed shown w
        | authenticated a ↦ manage m a w
      ]
