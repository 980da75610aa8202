-- ===== src/Chain/Linked.antt =====
-- The chain that `insert_transition_event` (database.py) keeps: entries numbered from 1, each
-- naming its predecessor's hash, each with an event that reads back.
use governed_signal_to_conte.Base.{
  >>=-eq-ok, List, String, [], arith, chain_error, if◌then◌else◌, nat_eq, none, not, ok,
  ok_injective, or_raise, or_raise-some, raise_if, refl, some, subst, ◌++◌, ◌+◌, ◌∷◌, ◌≡◌,
}
use governed_signal_to_conte.Chain.Append.{check_genesis, check_tail, insert_transition_event}
use governed_signal_to_conte.Chain.Events.{PreparedChainedEvent, prepare_chained_event}
use governed_signal_to_conte.Chain.Material.{
  ChainEntry, ChainState, EventStore, Material, StoredEvent,
}
use governed_signal_to_conte.Chain.Roundtrip.{prepared_entry, prepared_event}
use governed_signal_to_conte.Chain.Rows.{has_metadata, insert_entry_row, insert_event_row}
use governed_signal_to_conte.Receipts.{TransitionEvent}

abbrev pub new_event : TransitionEvent → PreparedChainedEvent → StoredEvent
new_event e p = record { event = prepared_event e p; receipt_projected_at_utc = none }

abbrev pub new_state : TransitionEvent → PreparedChainedEvent → ChainState → ChainState
new_state e p c = record c {
  head_sequence = p.event_sequence;
  head_event_id = some e.event_id;
  head_event_hash = p.event_hash;
}

abbrev pub with_event :
    TransitionEvent → PreparedChainedEvent → ChainState → EventStore → EventStore
with_event e p c s = record {
  events = s.events ++ new_event e p ∷ [];
  entries = s.entries ++ prepared_entry e.event_id p ∷ [];
  chain_state = some (new_state e p c);
}

abbrev store_of : List StoredEvent → List ChainEntry → ChainState → EventStore
store_of events entries c = record { events = events; entries = entries; chain_state = some c }

-- What an append has read, prepared and written.
pub record Appended (H : Material → String) (e : TransitionEvent) (p : PreparedChainedEvent)
    (s s' : EventStore) : Type 0 where
  pub state : ChainState
  pub activated : s.chain_state ≡ some state
  pub prepared : prepare_chained_event H e (state.head_sequence + 1) state.head_event_hash ≡ ok p
  pub written : s' ≡ with_event e p state s

insert_event_row-frame :
    (v : StoredEvent) (vs vs' : List StoredEvent)
    → insert_event_row v vs ≡ ok vs'
    → vs' ≡ vs ++ v ∷ []
unfolding insert_event_row
insert_event_row-frame v vs vs' h = ground arith

insert_entry_row-frame :
    (c : ChainEntry) (cs cs' : List ChainEntry)
    → insert_entry_row c cs ≡ ok cs'
    → cs' ≡ cs ++ c ∷ []
unfolding insert_entry_row
insert_entry_row-frame c cs cs' h = ground arith

abbrev append_answer : PreparedChainedEvent → EventStore → PreparedChainedEvent × EventStore
append_answer p s = (p, s)

answer-Appended :
    (H : Material → String) (e : TransitionEvent) (p q : PreparedChainedEvent) (s s' : EventStore)
    (c : ChainState) (events : List StoredEvent) (entries : List ChainEntry)
    → s.chain_state ≡ some c
    → prepare_chained_event H e (c.head_sequence + 1) c.head_event_hash ≡ ok q
    → events ≡ s.events ++ new_event e q ∷ []
    → entries ≡ s.entries ++ prepared_entry e.event_id q ∷ []
    → ok (append_answer q (store_of events entries (new_state e q c))) ≡ ok (append_answer p s')
    → Appended H e p s s'
answer-Appended H e p q s s' c events entries a r f g h =
    let k =
      ok_injective (append_answer q (store_of events entries (new_state e q c)))
        (append_answer p s') h in
    subst (λ x. Appended H e x.0 s x.1) k
      (record { state = c; activated = a; prepared = r; written = rw (f, g) refl })

pub insert_transition_event-Appended :
    (H : Material → String) (e : TransitionEvent) (p : PreparedChainedEvent) (s s' : EventStore)
    → insert_transition_event H e s ≡ ok (p, s')
    → Appended H e p s s'
unfolding insert_transition_event
insert_transition_event-Appended H e p s s' h =
    let (c, e₁, h₁) =
      >>=-eq-ok (or_raise s.chain_state (chain_error "Canonical event chain is not activated")) _
        h in
    let (_, _, h₂) =
      >>=-eq-ok
        (raise_if (not (has_metadata c)) (chain_error "Canonical chain-state metadata mismatch")) _
        h₁ in
    let (_, _, h₃) =
      >>=-eq-ok (if nat_eq c.head_sequence 0 then check_genesis H s c else check_tail H s c) _ h₂ in
    let (q, e₄, h₄) =
      >>=-eq-ok (prepare_chained_event H e (c.head_sequence + 1) c.head_event_hash) _ h₃ in
    let (events, e₅, h₅) = >>=-eq-ok (insert_event_row (new_event e q) s.events) _ h₄ in
    let (entries, e₆, h₆) =
      >>=-eq-ok (insert_entry_row (prepared_entry e.event_id q) s.entries) _ h₅ in
    answer-Appended H e p q s s' c events entries (or_raise-some _ _ c e₁) e₄
      (insert_event_row-frame (new_event e q) s.events events e₅)
      (insert_entry_row-frame (prepared_entry e.event_id q) s.entries entries e₆) h₆
