-- ===== src/Projection.antt =====
-- The projection of stored events to the JSONL receipt log (receipts.py), and the mark that a
-- projected event gets (database.py). The log is the list of its decoded lines. The database and
-- the file are changed one after the other, so that an error leaves what was done before it.
use governed_signal_to_conte.Base.{
  Bool, List, Option, Result, String, [], count_where, err, false, find_first, if◌then◌else◌,
  is_some, key_error, nat_eq, none, not, ok, opt_eq, raise_if, runtime_error, some, true,
  update_where, ℕ, ◌&&◌, ◌++◌, ◌==◌, ◌>>=◌, ◌>>◌, ◌∷◌,
}
use governed_signal_to_conte.Chain.Events.{
  auth_eq, authz_eq, canonical_receipt_from_event, outcome_eq,
}
use governed_signal_to_conte.Chain.Material.{EventStore, Material, StoredEvent}
use governed_signal_to_conte.Chain.Rows.{entry_of, event_of}
use governed_signal_to_conte.Json.{fields_eq}
use governed_signal_to_conte.Receipts.{ChainIdentity, RunReceipt}
pub mod Once

pub record Workspace : Type 0 where
  pub store : EventStore
  pub receipt_log : List RunReceipt

abbrev pub sequence_eq : Option ℕ → Option ℕ → Bool
sequence_eq none none = true
sequence_eq none (some b) = false
sequence_eq (some a) none = false
sequence_eq (some a) (some b) = nat_eq a b

abbrev pub chain_eq : ChainIdentity → ChainIdentity → Bool
chain_eq a b =
    opt_eq a.chain_version b.chain_version
    && opt_eq a.chain_origin b.chain_origin
    && sequence_eq a.event_sequence b.event_sequence
    && opt_eq a.previous_event_hash b.previous_event_hash
    && opt_eq a.event_hash b.event_hash

-- `canonical_json(existing) == receipt_json`, on the decoded receipts.
unfoldable pub receipt_eq : RunReceipt → RunReceipt → Bool
receipt_eq a b =
    a.run_id == b.run_id
    && a.command == b.command
    && a.timestamp_utc == b.timestamp_utc
    && a.actor == b.actor
    && fields_eq a.input_identifiers b.input_identifiers
    && opt_eq a.prior_state b.prior_state
    && opt_eq a.requested_transition b.requested_transition
    && opt_eq a.resulting_state b.resulting_state
    && outcome_eq a.outcome b.outcome
    && a.reason == b.reason
    && fields_eq a.file_hashes b.file_hashes
    && a.application_version == b.application_version
    && auth_eq a.authentication b.authentication
    && authz_eq a.authorization b.authorization
    && chain_eq a.chain b.chain

abbrev pub find_receipt : List RunReceipt → String → Option RunReceipt
find_receipt receipt_log run_id = find_first (λ r. r.run_id == run_id) receipt_log

abbrev pub is_pending : String → StoredEvent → Bool
is_pending event_id v = v.event.event_id == event_id && not (is_some v.receipt_projected_at_utc)

abbrev pub marked_at : String → StoredEvent → StoredEvent
marked_at projected_at_utc v = record v { receipt_projected_at_utc = some projected_at_utc }

-- The UPDATE touches pending rows only; with none it is an error that the event does not exist.
unfoldable pub mark_transition_event_projected : String → String → EventStore → Result EventStore
mark_transition_event_projected event_id projected_at_utc s = do
  raise_if
      (nat_eq (count_where (is_pending event_id) s.events) 0
        && not (is_some (event_of s.events event_id)))
      (key_error "Unknown transition event")
  ok (record s {
    events = update_where (is_pending event_id) (marked_at projected_at_utc) s.events;
  })

-- The last statement of the `try` block, and the receipt that is returned.
unfoldable pub finish_projection :
    String → String → RunReceipt → Workspace → Result RunReceipt × Workspace
finish_projection now event_id receipt w =
    elim (mark_transition_event_projected event_id now w.store) [
      | ok s ↦ (ok receipt, record w { store = s })
      | err e ↦ (err (runtime_error "ReceiptProjectionError"), w)
    ]

-- The `try` block: the log is looked up, extended if the receipt is not there, and compared if it is.
unfoldable pub project_receipt :
    String → String → RunReceipt → RunReceipt → Workspace → Result RunReceipt × Workspace
project_receipt now event_id receipt receipt_json w = elim (find_receipt w.receipt_log event_id) [
  | none ↦
      finish_projection now event_id receipt
        (record w { receipt_log = w.receipt_log ++ receipt_json ∷ [] })
  | some existing ↦
      if receipt_eq existing receipt_json
      then finish_projection now event_id receipt w
      else (err (runtime_error "ReceiptProjectionError"), w)
]

module _ (canonical_json_hash : Material → String) where
  unfoldable pub project_transition_event :
      String → String → Workspace → Result RunReceipt × Workspace
  project_transition_event now event_id w = elim (event_of w.store.events event_id) [
    | none ↦ (err (key_error "Unknown transition event"), w)
    | some v ↦
        elim (canonical_receipt_from_event canonical_json_hash v.event
          (entry_of w.store.entries event_id)) [
            | err e ↦ (err e, w)
            | ok receipt ↦ project_receipt now event_id receipt v.event.receipt_json w
          ]
  ]
