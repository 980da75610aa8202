-- ===== src/Chain/Events.antt =====
-- The preparation of a chained event and the check of a stored one (integrity.py).
-- `canonical_json_hash` (json and hashlib) is a parameter: a function of the material.
use governed_signal_to_conte.Base.{
  Bool, List, Option, Result, String, chain_error, false, is_some, length, map, none, not, ok,
  opt_eq, raise_if, some, true, ℕ, ◌&&◌, ◌==◌, ◌>>◌,
}
use governed_signal_to_conte.Chain.Material.{
  ChainEntry, Material, activation, chain_activation_domain, chain_domain, chain_origin_native,
  chain_version_1, event_material, legacy_ordering_text, native_event,
}
use governed_signal_to_conte.Chain.Rows.{chain_matches, in_order, without_hash}
use governed_signal_to_conte.Json.{fields_eq}
use governed_signal_to_conte.Receipts.{
  AuthenticationFields, AuthorizationFields, RunReceipt, TransitionEvent, no_chain,
  validate_receipt,
}
use governed_signal_to_conte.Tables.{Outcome}

abbrev pub auth_eq : AuthenticationFields → AuthenticationFields → Bool
auth_eq a b =
    opt_eq a.status b.status
    && opt_eq a.principal_id b.principal_id
    && opt_eq a.scheme b.scheme
    && opt_eq a.key_id b.key_id
    && opt_eq a.verifier_fingerprint b.verifier_fingerprint
    && opt_eq a.operation_id b.operation_id
    && opt_eq a.envelope_hash b.envelope_hash
    && opt_eq a.proof_hash b.proof_hash
    && opt_eq a.authenticated_at_utc b.authenticated_at_utc

abbrev pub authz_eq : AuthorizationFields → AuthorizationFields → Bool
authz_eq a b =
    opt_eq a.status b.status
    && opt_eq a.principal_id b.principal_id
    && opt_eq a.required_capability b.required_capability
    && opt_eq a.prior_state b.prior_state
    && opt_eq a.requested_state b.requested_state
    && opt_eq a.scope_version b.scope_version
    && opt_eq a.brand_id b.brand_id
    && opt_eq a.channel_id b.channel_id
    && opt_eq a.destination_id b.destination_id
    && opt_eq a.matching_grant_id b.matching_grant_id
    && opt_eq a.reason_code b.reason_code

abbrev pub outcome_eq : Outcome → Outcome → Bool
outcome_eq Outcome.accepted Outcome.accepted = true
outcome_eq Outcome.accepted Outcome.rejected = false
outcome_eq Outcome.rejected Outcome.accepted = false
outcome_eq Outcome.rejected Outcome.rejected = true

abbrev texts_agree : TransitionEvent → RunReceipt → Bool
texts_agree e r =
    e.event_id == r.run_id
    && e.command == r.command
    && e.asserted_actor == r.actor
    && opt_eq e.prior_state r.prior_state
    && opt_eq e.requested_state r.requested_transition
    && opt_eq e.resulting_state r.resulting_state
    && outcome_eq e.outcome r.outcome
    && e.reason == r.reason
    && e.occurred_at_utc == r.timestamp_utc
    && e.application_version == r.application_version

-- `_validate_event_receipt_alignment`: the fields that must agree.
unfoldable pub is_aligned : TransitionEvent → RunReceipt → Bool
is_aligned e r =
    texts_agree e r
    && auth_eq e.authentication r.authentication
    && authz_eq e.authorization r.authorization
    && fields_eq e.input_identifiers_json r.input_identifiers
    && fields_eq e.file_hashes_json r.file_hashes

unfoldable pub validate_event_receipt_alignment : TransitionEvent → RunReceipt → Result (Unit {0})
unfolding is_aligned
validate_event_receipt_alignment e r =
    raise_if (not (is_aligned e r)) (chain_error "Canonical event and receipt evidence disagree")

pub record PreparedChainedEvent : Type 0 where
  pub receipt_json : RunReceipt
  pub chain_version : String
  pub chain_origin : String
  pub event_sequence : ℕ
  pub previous_event_hash : String
  pub event_hash : String

-- The receipt of an event, with the chain fields before its own hash is known.
abbrev pub unhashed : RunReceipt → ℕ → String → RunReceipt
unhashed r event_sequence previous_event_hash = record r {
  chain = record {
    chain_version = some chain_version_1;
    chain_origin = some chain_origin_native;
    event_sequence = some event_sequence;
    previous_event_hash = some previous_event_hash;
    event_hash = none;
  };
}

abbrev pub hashed : RunReceipt → ℕ → String → String → RunReceipt
hashed r event_sequence previous_event_hash event_hash = record r {
  chain = record {
    chain_version = some chain_version_1;
    chain_origin = some chain_origin_native;
    event_sequence = some event_sequence;
    previous_event_hash = some previous_event_hash;
    event_hash = some event_hash;
  };
}

module _ (canonical_json_hash : Material → String) where
  unfoldable pub calculate_event_hash :
      TransitionEvent → ℕ → String → RunReceipt → String → String → String
  unfolding event_material
  calculate_event_hash e event_sequence previous_event_hash receipt chain_version chain_origin =
      canonical_json_hash (
        native_event chain_domain chain_version chain_origin event_sequence previous_event_hash
          (event_material e receipt))

  unfoldable pub prepare_chained_event : TransitionEvent → ℕ → String → Result PreparedChainedEvent
  unfolding calculate_event_hash validate_event_receipt_alignment
  prepare_chained_event e event_sequence previous_event_hash = do
    let bare : RunReceipt = record (e.receipt_json) { chain = no_chain }
    validate_receipt bare
    let event_hash =
        calculate_event_hash e event_sequence previous_event_hash
          (unhashed bare event_sequence previous_event_hash) chain_version_1 chain_origin_native
    let receipt = hashed bare event_sequence previous_event_hash event_hash
    validate_receipt receipt
    validate_event_receipt_alignment e receipt
    ok (record {
      receipt_json = receipt;
      chain_version = chain_version_1;
      chain_origin = chain_origin_native;
      event_sequence = event_sequence;
      previous_event_hash = previous_event_hash;
      event_hash = event_hash;
    })

  unfoldable pub canonical_receipt_from_event :
      TransitionEvent → Option ChainEntry → Result RunReceipt
  unfolding calculate_event_hash validate_event_receipt_alignment
  canonical_receipt_from_event e none = do
    let receipt = e.receipt_json
    validate_receipt receipt
    raise_if (is_some receipt.chain.chain_version)
        (chain_error "Unchained legacy event claims a native receipt chain identity")
    ok receipt
  canonical_receipt_from_event e (some c) = do
    let receipt = e.receipt_json
    validate_receipt receipt
    raise_if (not (chain_matches receipt.chain c))
        (chain_error "Canonical event and receipt chain metadata disagree")
    raise_if
        (not (
          calculate_event_hash e c.event_sequence c.previous_event_hash (without_hash receipt)
            c.chain_version c.chain_origin
          == c.event_hash))
        (chain_error "Canonical event hash mismatch")
    validate_event_receipt_alignment e receipt
    ok receipt

  unfoldable pub calculate_activation_hash : List TransitionEvent → String
  unfolding in_order event_material
  calculate_activation_hash events =
      let ordered = in_order events in
      canonical_json_hash (
        activation chain_activation_domain chain_version_1 legacy_ordering_text (length ordered)
          (map (λ e. event_material e e.receipt_json) ordered))
