-- ===== src/Chain/Append.antt =====
-- `insert_transition_event` (database.py): the checks of the chain head, and the append.
use governed_signal_to_conte.Base.{
  Result, String, chain_error, if◌then◌else◌, is_some, length, nat_eq, none, not, ok, opt_eq,
  or_raise, raise_if, some, ◌+◌, ◌-◌, ◌==◌, ◌>>=◌, ◌>>◌, ◌||◌,
}
use governed_signal_to_conte.Chain.Events.{
  PreparedChainedEvent, calculate_activation_hash, canonical_receipt_from_event,
  prepare_chained_event,
}
use governed_signal_to_conte.Chain.Material.{ChainState, EventStore, Material}
use governed_signal_to_conte.Chain.Rows.{
  entry_at, event_of, has_metadata, insert_entry_row, insert_event_row, legacy_events,
}
use governed_signal_to_conte.Receipts.{TransitionEvent}

-- The predecessor hash that the tail event must name.
unfoldable pub expected_previous_hash : EventStore → ChainState → Result String
expected_previous_hash s c =
    if nat_eq c.head_sequence 1
    then ok c.activation_hash
    else (or_raise (entry_at s.entries (c.head_sequence - 1))
          (chain_error "Canonical chain tail predecessor is missing")
        >>= λ predecessor. ok predecessor.event_hash)

module _ (canonical_json_hash : Material → String) where
  -- The head of an empty chain: the activation checkpoint of the legacy events.
  unfoldable pub check_genesis : EventStore → ChainState → Result (Unit {0})
  unfolding calculate_activation_hash legacy_events
  check_genesis s c = do
    raise_if (is_some c.head_event_id || not (c.head_event_hash == c.activation_hash))
        (chain_error "Canonical genesis head is inconsistent")
    let legacy = legacy_events s
    raise_if
        (not (nat_eq c.legacy_event_count (length legacy))
          || not (calculate_activation_hash canonical_json_hash legacy == c.activation_hash))
        (chain_error "Canonical legacy activation checkpoint is inconsistent")

  -- The head of a chain with events: its tail event.
  unfoldable pub check_tail : EventStore → ChainState → Result (Unit {0})
  unfolding canonical_receipt_from_event expected_previous_hash
  check_tail s c = do
    let no_tail = chain_error "Canonical chain head does not match its tail event"
    entry ← or_raise (entry_at s.entries c.head_sequence) no_tail
    tail ← or_raise (event_of s.events entry.event_id) no_tail
    raise_if
        (not (opt_eq (some entry.event_id) c.head_event_id)
          || not (entry.event_hash == c.head_event_hash))
        no_tail
    _ ← canonical_receipt_from_event canonical_json_hash tail.event (some entry)
    expected ← expected_previous_hash s c
    raise_if (not (entry.previous_event_hash == expected))
        (chain_error "Canonical chain tail predecessor is inconsistent")

  unfoldable pub insert_transition_event :
      TransitionEvent → EventStore → Result (PreparedChainedEvent × EventStore)
  unfolding has_metadata check_genesis check_tail prepare_chained_event insert_event_row
      insert_entry_row
  insert_transition_event e s = do
    c ← or_raise s.chain_state (chain_error "Canonical event chain is not activated")
    raise_if (not (has_metadata c)) (chain_error "Canonical chain-state metadata mismatch")
    if nat_eq c.head_sequence 0 then check_genesis s c else check_tail s c
    prepared ← prepare_chained_event canonical_json_hash e (c.head_sequence + 1) c.head_event_hash
    events ←
        insert_event_row
          (record {
            event = record e { receipt_json = prepared.receipt_json };
            receipt_projected_at_utc = none;
          })
          s.events
    entries ←
        insert_entry_row
          (record {
            event_id = e.event_id;
            chain_version = prepared.chain_version;
            chain_origin = prepared.chain_origin;
            event_sequence = prepared.event_sequence;
            previous_event_hash = prepared.previous_event_hash;
            event_hash = prepared.event_hash;
          })
          s.entries
    let state : ChainState = record c {
      head_sequence = prepared.event_sequence;
      head_event_id = some e.event_id;
      head_event_hash = prepared.event_hash;
    }
    ok (prepared, record { events = events; entries = entries; chain_state = some state })
