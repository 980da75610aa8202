-- ===== src/Receipts/Validation.antt =====
-- The validators of a receipt (RunReceipt of models.py).
use governed_signal_to_conte.Base.{
  Bool, Option, Result, String, all, codes, if◌then◌else◌, is_some, leb, length, nat_eq, none, not,
  opt_eq, raise_if, some, true, value_error, ℕ, ◌&&◌, ◌==◌, ◌>>◌, ◌||◌,
}
use governed_signal_to_conte.Receipts.Fields.{
  AuthenticationFields, AuthorizationFields, ChainIdentity, RunReceipt,
}

-- A pattern `^[0-9a-f]{64}$`, also the CHECK of the hash columns.
abbrev pub is_hex : ℕ → Bool
is_hex c = leb b'0' c && leb c b'9' || leb b'a' c && leb c b'f'

unfoldable pub is_hash : String → Bool
is_hash s = nat_eq (length (codes s)) 64 && all is_hex (codes s)

abbrev hash_or_none : Option String → Bool
hash_or_none none = true
hash_or_none (some h) = is_hash h

abbrev at_least_one : Option ℕ → Bool
at_least_one none = true
at_least_one (some n) = leb 1 n

abbrev none_or : Option String → String → Bool
none_or none t = true
none_or (some s) t = s == t

-- `require_complete_chain_identity`, after the constraints on the chain fields.
unfoldable pub require_complete_chain_identity : ChainIdentity → Result (Unit {0})
unfolding is_hash
require_complete_chain_identity c = do
  raise_if
      (not (
        none_or c.chain_version "1.0"
        && none_or c.chain_origin "native"
        && at_least_one c.event_sequence
        && hash_or_none c.previous_event_hash
        && hash_or_none c.event_hash))
      (value_error "Receipt chain field is invalid")
  raise_if
      ((is_some c.chain_version
          || is_some c.chain_origin
          || is_some c.event_sequence
          || is_some c.previous_event_hash
          || is_some c.event_hash)
        && not (
            is_some c.chain_version
            && is_some c.chain_origin
            && is_some c.event_sequence
            && is_some c.previous_event_hash
            && is_some c.event_hash))
      (value_error "Receipt chain identity must be entirely present or absent")

abbrev literal_status : Option String → Bool
literal_status none = true
literal_status (some s) = s == "allowed" || s == "denied" || s == "not_evaluated"

-- `require_coherent_authorization_evidence`, after the constraints on the two literal fields.
-- The checks of the validator where the status is absent, and where it is present.
abbrev coherent_absent : AuthorizationFields → Result (Unit {0})
coherent_absent z =
    raise_if
      (is_some z.principal_id
        || is_some z.required_capability
        || is_some z.reason_code
        || is_some z.prior_state
        || is_some z.requested_state
        || is_some z.scope_version
        || is_some z.brand_id
        || is_some z.channel_id
        || is_some z.destination_id
        || is_some z.matching_grant_id)
      (value_error "Authorization evidence cannot exist without authorization status")

coherent_present : AuthenticationFields → AuthorizationFields → Result (Unit {0})
unfolding opt_eq
coherent_present t z = do
  raise_if (not (is_some z.principal_id && is_some z.required_capability && is_some z.reason_code))
      (value_error "Authorization evidence is incomplete")
  raise_if (not (opt_eq t.status (some "verified") || opt_eq t.status (some "replay_rejected")))
      (value_error "Authorization evidence requires authenticated or replay provenance")
  raise_if (not (opt_eq z.principal_id t.principal_id))
      (value_error "Authorization principal must equal the authenticated principal")
  raise_if
      (not (is_some z.scope_version)
        && (is_some z.brand_id || is_some z.channel_id || is_some z.destination_id))
      (value_error "Authorization scope requires a scope version")
  raise_if
      (is_some z.scope_version
        && (is_some z.brand_id || is_some z.channel_id || is_some z.destination_id)
        && not (is_some z.brand_id && is_some z.channel_id && is_some z.destination_id))
      (value_error "Authorization scope must be entirely present or absent")
  raise_if (opt_eq z.status (some "denied") && is_some z.matching_grant_id)
      (value_error "Denied authorization cannot claim a matching grant")

unfoldable pub require_coherent_authorization_evidence :
    AuthenticationFields → AuthorizationFields → Result (Unit {0})
unfolding coherent_present
require_coherent_authorization_evidence t z = do
  raise_if (not (literal_status z.status && none_or z.scope_version "1.0"))
      (value_error "Receipt authorization field is invalid")
  if is_some z.status then coherent_present t z else coherent_absent z

-- `RunReceipt.model_validate`
unfoldable pub validate_receipt : RunReceipt → Result (Unit {0})
unfolding require_complete_chain_identity require_coherent_authorization_evidence
validate_receipt r = do
  require_complete_chain_identity r.chain
  require_coherent_authorization_evidence r.authentication r.authorization
