-- ===== src/Chain/Material.antt =====
-- The hashed material (integrity.py) and the tables of events and chain entries (database.py).
use governed_signal_to_conte.Base.{ℕ, String, Option, List}
use governed_signal_to_conte.Tables.{Outcome}
use governed_signal_to_conte.Json.{Fields}
use governed_signal_to_conte.Receipts.{AuthenticationFields, RunReceipt, TransitionEvent}

abbrev pub chain_version_1 : String
chain_version_1 = "1.0"

abbrev pub chain_origin_native : String
chain_origin_native = "native"

abbrev pub chain_hash_algorithm : String
chain_hash_algorithm = "sha256"

abbrev pub chain_domain : String
chain_domain = "GS2C_TRANSITION_EVENT_CHAIN_V1"

abbrev pub chain_activation_domain : String
chain_activation_domain = "GS2C_TRANSITION_EVENT_CHAIN_ACTIVATION_V1"

abbrev pub legacy_ordering_text : String
legacy_ordering_text = "occurred_at_utc,event_id"

-- `IMMUTABLE_EVENT_FIELDS`, with the two decoded dicts and the receipt.
pub record EventMaterial : Type 0 where
  pub event_id : String
  pub command : String
  pub asserted_actor : String
  pub target_type : String
  pub target_id : String
  pub candidate_id : Option String
  pub packet_id : Option String
  pub prior_state : Option String
  pub requested_state : Option String
  pub resulting_state : Option String
  pub outcome : Outcome
  pub reason : String
  pub governed_hash : Option String
  pub occurred_at_utc : String
  pub application_version : String
  pub authentication : AuthenticationFields
  pub input_identifiers : Fields
  pub file_hashes : Fields
  pub receipt : RunReceipt

-- The dicts that `canonical_json_hash` is called with.
pub data Material : Type 0 where
  native_event :
      (domain chain_version chain_origin : String) (event_sequence : ℕ)
      (previous_event_hash : String) (event : EventMaterial)
      → Material
  activation :
      (domain chain_version ordering : String) (legacy_event_count : ℕ)
      (events : List EventMaterial)
      → Material

-- `_native_event_material`; `_legacy_event_material` takes the event's own receipt.
unfoldable pub event_material : TransitionEvent → RunReceipt → EventMaterial
event_material e receipt = record {
  event_id = e.event_id;
  command = e.command;
  asserted_actor = e.asserted_actor;
  target_type = e.target_type;
  target_id = e.target_id;
  candidate_id = e.candidate_id;
  packet_id = e.packet_id;
  prior_state = e.prior_state;
  requested_state = e.requested_state;
  resulting_state = e.resulting_state;
  outcome = e.outcome;
  reason = e.reason;
  governed_hash = e.governed_hash;
  occurred_at_utc = e.occurred_at_utc;
  application_version = e.application_version;
  authentication = e.authentication;
  input_identifiers = e.input_identifiers_json;
  file_hashes = e.file_hashes_json;
  receipt = receipt;
}

-- A row of `transition_events`.
pub record StoredEvent : Type 0 where
  pub event : TransitionEvent
  pub receipt_projected_at_utc : Option String

-- A row of `transition_event_chain_entries`.
pub record ChainEntry : Type 0 where
  pub event_id : String
  pub chain_version : String
  pub chain_origin : String
  pub event_sequence : ℕ
  pub previous_event_hash : String
  pub event_hash : String

-- The one row of `transition_event_chain_state`.
pub record ChainState : Type 0 where
  pub chain_version : String
  pub chain_origin : String
  pub hash_algorithm : String
  pub event_domain : String
  pub activation_domain : String
  pub legacy_ordering : String
  pub legacy_event_count : ℕ
  pub activation_hash : String
  pub head_sequence : ℕ
  pub head_event_id : Option String
  pub head_event_hash : String

-- The three tables together.
pub record EventStore : Type 0 where
  pub events : List StoredEvent
  pub entries : List ChainEntry
  pub chain_state : Option ChainState
