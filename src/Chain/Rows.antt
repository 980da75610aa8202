-- ===== src/Chain/Rows.antt =====
-- Order, joins and constraints of the event tables (database.py).
-- The order of texts, by code points.
use governed_signal_to_conte.Base.{
  Bool, List, Option, Result, String, [], any, codes, false, find_first, if◌then◌else◌,
  integrity_error, is_some, leb, ltb, map, nat_eq, none, not, ok, opt_eq, raise_if, select, some,
  true, ℕ, ◌&&◌, ◌++◌, ◌==◌, ◌>>◌, ◌||◌, ◌∷◌,
}
use governed_signal_to_conte.Chain.Material.{
  ChainEntry, ChainState, EventStore, StoredEvent, chain_activation_domain, chain_domain,
  chain_hash_algorithm, chain_origin_native, chain_version_1, legacy_ordering_text,
}
use governed_signal_to_conte.Receipts.Events.{TransitionEvent}
use governed_signal_to_conte.Receipts.Fields.{ChainIdentity, RunReceipt}
use governed_signal_to_conte.Receipts.Validation.{is_hash}

pub codes_leb : List ℕ → List ℕ → Bool
codes_leb [] ds = true
codes_leb (c ∷ cs) [] = false
codes_leb (c ∷ cs) (d ∷ ds) = ltb c d || nat_eq c d && codes_leb cs ds

-- `(occurred_at_utc, event_id)` of one event is at most that of another.
abbrev pub not_later : TransitionEvent → TransitionEvent → Bool
not_later e f =
    if e.occurred_at_utc == f.occurred_at_utc
    then codes_leb (codes e.event_id) (codes f.event_id)
    else codes_leb (codes e.occurred_at_utc) (codes f.occurred_at_utc)

unfoldable pub insert_in_order : TransitionEvent → List TransitionEvent → List TransitionEvent
unfolding codes_leb
insert_in_order e [] = e ∷ []
insert_in_order e (f ∷ fs) =
    let rest = insert_in_order e fs in if not_later e f then e ∷ f ∷ fs else f ∷ rest

-- `ORDER BY occurred_at_utc, event_id`
unfoldable pub in_order : List TransitionEvent → List TransitionEvent
unfolding insert_in_order
in_order [] = []
in_order (e ∷ es) = insert_in_order e (in_order es)

-- The chain entry of an event, if it has one: the join on `event_id`.
abbrev pub entry_of : List ChainEntry → String → Option ChainEntry
entry_of entries event_id = find_first (λ c. c.event_id == event_id) entries

abbrev pub event_of : List StoredEvent → String → Option StoredEvent
event_of events event_id = find_first (λ e. e.event.event_id == event_id) events

abbrev pub entry_at : List ChainEntry → ℕ → Option ChainEntry
entry_at entries n = find_first (λ c. nat_eq c.event_sequence n) entries

-- The events that no chain entry names, in order.
unfoldable pub legacy_events : EventStore → List TransitionEvent
unfolding in_order
legacy_events s = in_order (
    map (λ e. e.event) (select (λ e. not (is_some (entry_of s.entries e.event.event_id))) s.events))

abbrev pub chain_matches : ChainIdentity → ChainEntry → Bool
chain_matches i c =
    opt_eq i.chain_version (some c.chain_version)
    && opt_eq i.chain_origin (some c.chain_origin)
    && (elim i.event_sequence [ none ↦ false | some n ↦ nat_eq n c.event_sequence ])
    && opt_eq i.previous_event_hash (some c.previous_event_hash)
    && opt_eq i.event_hash (some c.event_hash)

-- A receipt without its own hash, which its hash is taken of.
abbrev pub without_hash : RunReceipt → RunReceipt
without_hash r = record r {
  chain = record {
    chain_version = r.chain.chain_version;
    chain_origin = r.chain.chain_origin;
    event_sequence = r.chain.event_sequence;
    previous_event_hash = r.chain.previous_event_hash;
    event_hash = none;
  };
}

-- The constraints of the two INSERT statements of `insert_transition_event`.
unfoldable pub insert_event_row : StoredEvent → List StoredEvent → Result (List StoredEvent)
insert_event_row e events = do
  raise_if (any (λ f. f.event.event_id == e.event.event_id) events)
      (integrity_error "UNIQUE constraint failed: transition_events.event_id")
  ok (events ++ e ∷ [])

unfoldable pub insert_entry_row : ChainEntry → List ChainEntry → Result (List ChainEntry)
unfolding is_hash
insert_entry_row c entries = do
  raise_if (any (λ d. d.event_id == c.event_id) entries)
      (integrity_error "UNIQUE constraint failed: transition_event_chain_entries.event_id")
  raise_if (any (λ d. nat_eq d.event_sequence c.event_sequence) entries)
      (integrity_error "UNIQUE constraint failed: transition_event_chain_entries.event_sequence")
  raise_if (any (λ d. d.previous_event_hash == c.previous_event_hash) entries) (
      integrity_error
        "UNIQUE constraint failed: transition_event_chain_entries.previous_event_hash")
  raise_if (any (λ d. d.event_hash == c.event_hash) entries)
      (integrity_error "UNIQUE constraint failed: transition_event_chain_entries.event_hash")
  raise_if
      (not (
        c.chain_version == "1.0"
        && c.chain_origin == "native"
        && leb 1 c.event_sequence
        && is_hash c.previous_event_hash
        && is_hash c.event_hash))
      (integrity_error "CHECK constraint failed: transition_event_chain_entries")
  ok (entries ++ c ∷ [])

-- The constants that the chain state must hold.
unfoldable pub has_metadata : ChainState → Bool
has_metadata c =
    c.chain_version == chain_version_1
    && c.chain_origin == chain_origin_native
    && c.hash_algorithm == chain_hash_algorithm
    && c.event_domain == chain_domain
    && c.activation_domain == chain_activation_domain
    && c.legacy_ordering == legacy_ordering_text
