-- ===== src/Projection/Once.antt =====
-- Projection is idempotent (receipts.py): a receipt is written once.
use governed_signal_to_conte.Base.{
  Bool-cases, List, Option, Option-cases, Result, Result-cases, String, [], ap, arith, eq_iff,
  false, find_first→in, if◌then◌else◌, inl, inr, is_some, none, ok, opt_eq_refl, refl, some, sym,
  true, update_where, ℕ, ◌++◌, ◌==◌, ◌∙◌, ◌∷◌, ◌≡◌,
}
use governed_signal_to_conte.Chain.Events.{
  auth_eq, authz_eq, canonical_receipt_from_event, is_aligned, outcome_eq,
  validate_event_receipt_alignment,
}
use governed_signal_to_conte.Chain.Material.{ChainEntry, EventStore, Material, StoredEvent}
use governed_signal_to_conte.Chain.Rows.{entry_of, event_of}
use governed_signal_to_conte.Json.Redaction.{fields_eq_refl}
use governed_signal_to_conte.Projection.{
  Workspace, chain_eq, find_receipt, finish_projection, is_pending, mark_transition_event_projected,
  marked_at, project_receipt, project_transition_event, receipt_eq, sequence_eq,
}
use governed_signal_to_conte.Receipts.{
  AuthenticationFields, AuthorizationFields, ChainIdentity, RunReceipt, TransitionEvent,
}
use governed_signal_to_conte.Tables.{Outcome}

marked-not_pending :
    (event_id now : String) (v : StoredEvent) → is_pending event_id (marked_at now v) ≡ false
marked-not_pending event_id now v = ground arith

none_pending :
    (event_id now later : String) (vs : List StoredEvent)
    → update_where
        (is_pending event_id)
        (marked_at later)
        (update_where (is_pending event_id) (marked_at now) vs)
      ≡ update_where (is_pending event_id) (marked_at now) vs
none_pending event_id now later [] = refl
none_pending event_id now later (v ∷ vs) = ground (arith, none_pending event_id now later vs)

-- Marking leaves the event of an id as it is.
event_of-marked :
    (event_id now : String) (vs : List StoredEvent) (v : StoredEvent)
    → event_of vs event_id ≡ some v
    → (v' : StoredEvent) × (event_of
          (update_where (is_pending event_id) (marked_at now) vs)
          event_id
        ≡ some v')
      × (v'.event ≡ v.event)
event_of-marked event_id now [] v h = cc
event_of-marked event_id now (u ∷ us) v h = elim (Bool-cases (u.event.event_id == event_id)) [
  | inl e ↦ elim (Bool-cases (is_pending event_id u)) [
    | inl k ↦ (marked_at now u, ground (arith, e, k), ground (arith, e, h))
    | inr k ↦ (u, ground (arith, e, k), ground (arith, e, h))
  ]
  | inr e ↦
      let (w, f, g) = event_of-marked event_id now us v (ground (arith, e, h)) in
      (w, ground (arith, e, f), g)
]

find_receipt-snoc :
    (rs : List RunReceipt) (r : RunReceipt) (run_id : String)
    → find_receipt rs run_id ≡ none
    → r.run_id ≡ run_id
    → find_receipt (rs ++ r ∷ []) run_id ≡ some r
find_receipt-snoc [] r run_id h e = ground (arith, eq_iff r.run_id run_id)
find_receipt-snoc (x ∷ xs) r run_id h e = ground (arith, find_receipt-snoc xs r run_id)

sequence_eq_refl : (a : Option ℕ) → sequence_eq a a ≡ true
sequence_eq_refl none = refl
sequence_eq_refl (some n) = ground arith

chain_eq_refl : (a : ChainIdentity) → chain_eq a a ≡ true
chain_eq_refl a = ground (
  arith,
  opt_eq_refl a.chain_version,
  opt_eq_refl a.chain_origin,
  sequence_eq_refl a.event_sequence,
  opt_eq_refl a.previous_event_hash,
  opt_eq_refl a.event_hash,
)

outcome_eq_refl : (a : Outcome) → outcome_eq a a ≡ true
outcome_eq_refl Outcome.accepted = refl
outcome_eq_refl Outcome.rejected = refl

auth_eq_refl : (a : AuthenticationFields) → auth_eq a a ≡ true
auth_eq_refl a = ground (
  arith,
  opt_eq_refl a.status,
  opt_eq_refl a.principal_id,
  opt_eq_refl a.scheme,
  opt_eq_refl a.key_id,
  opt_eq_refl a.verifier_fingerprint,
  opt_eq_refl a.operation_id,
  opt_eq_refl a.envelope_hash,
  opt_eq_refl a.proof_hash,
  opt_eq_refl a.authenticated_at_utc,
)

authz_eq_refl : (a : AuthorizationFields) → authz_eq a a ≡ true
authz_eq_refl a = ground (
  arith,
  opt_eq_refl a.status,
  opt_eq_refl a.principal_id,
  opt_eq_refl a.required_capability,
  opt_eq_refl a.prior_state,
  opt_eq_refl a.requested_state,
  opt_eq_refl a.scope_version,
  opt_eq_refl a.brand_id,
  opt_eq_refl a.channel_id,
  opt_eq_refl a.destination_id,
  opt_eq_refl a.matching_grant_id,
  opt_eq_refl a.reason_code,
)

receipt_eq_refl : (r : RunReceipt) → receipt_eq r r ≡ true
unfolding receipt_eq
receipt_eq_refl r =
    rw
      (
        (eq_iff r.run_id r.run_id).1 refl,
        (eq_iff r.command r.command).1 refl,
        (eq_iff r.timestamp_utc r.timestamp_utc).1 refl,
        (eq_iff r.actor r.actor).1 refl,
        fields_eq_refl r.input_identifiers,
        opt_eq_refl r.prior_state,
        opt_eq_refl r.requested_transition,
        opt_eq_refl r.resulting_state,
        outcome_eq_refl r.outcome,
        (eq_iff r.reason r.reason).1 refl,
        fields_eq_refl r.file_hashes,
        (eq_iff r.application_version r.application_version).1 refl,
        auth_eq_refl r.authentication,
        authz_eq_refl r.authorization,
        chain_eq_refl r.chain,
      )
      refl

canonical_run_id :
    (H : Material → String) (e : TransitionEvent) (c : ChainEntry) (r : RunReceipt)
    → canonical_receipt_from_event H e (some c) ≡ ok r
    → (r ≡ e.receipt_json) × (e.event_id ≡ r.run_id)
unfolding canonical_receipt_from_event validate_event_receipt_alignment is_aligned
canonical_run_id H e c r h = ground (arith, eq_iff e.event_id r.run_id)

abbrev marked_store : String → String → EventStore → EventStore
marked_store event_id now s = record s {
  events = update_where (is_pending event_id) (marked_at now) s.events;
}

abbrev outcome_of : RunReceipt → Workspace → Result RunReceipt × Workspace
outcome_of r w = (ok r, w)

finish_projection-marked :
    (now event_id : String) (receipt r : RunReceipt) (w w' : Workspace)
    → finish_projection now event_id receipt w ≡ outcome_of r w'
    → (receipt ≡ r) × (w' ≡ record w { store = marked_store event_id now w.store })
unfolding finish_projection mark_transition_event_projected
finish_projection-marked now event_id receipt r w w' h =
    elim (Result-cases (mark_transition_event_projected event_id now w.store)) [
      | inl (s, e) ↦ (ground (arith, e, h), ground (arith, e, h))
      | inr (x, e) ↦ absurd (ground (arith, e, h))
    ]

-- What a successful projection has done to the workspace.
record Logged (now event_id : String) (receipt receipt_json r : RunReceipt) (w w' : Workspace)
    : Type 0 where
  returned : receipt ≡ r
  stored : w'.store ≡ marked_store event_id now w.store
  existing : RunReceipt
  found : find_receipt w'.receipt_log event_id ≡ some existing
  agrees : receipt_eq existing receipt_json ≡ true

project_receipt-Logged :
    (now event_id : String) (receipt receipt_json r : RunReceipt) (w w' : Workspace)
    → receipt_json.run_id ≡ event_id
    → project_receipt now event_id receipt receipt_json w ≡ outcome_of r w'
    → Logged now event_id receipt receipt_json r w w'
unfolding project_receipt
project_receipt-Logged now event_id receipt receipt_json r w w' i h =
    elim (Option-cases (find_receipt w.receipt_log event_id)) [
      | inl e ↦
          let added : Workspace = record w { receipt_log = w.receipt_log ++ receipt_json ∷ [] } in
          let (a, b) =
            finish_projection-marked now event_id receipt r added w'
              (rw (e, project_receipt) at h) in
          record {
            returned = a;
            stored = ap (λ x. x.store) b;
            existing = receipt_json;
            found =
                ap (λ x. find_receipt x.receipt_log event_id) b
                ∙ find_receipt-snoc w.receipt_log receipt_json event_id e i;
            agrees = receipt_eq_refl receipt_json;
          }
      | inr (x, e) ↦ elim (Bool-cases (receipt_eq x receipt_json)) [
        | inl k ↦
            let (a, b) =
              finish_projection-marked now event_id receipt r w w'
                (rw (e, project_receipt, k, if◌then◌else◌) at h) in
            record {
              returned = a;
              stored = ap (λ y. y.store) b;
              existing = x;
              found = ap (λ y. find_receipt y.receipt_log event_id) b ∙ e;
              agrees = k;
            }
        | inr k ↦ absurd (ground (arith, e, k, h))
      ]
    ]

marked_again :
    (event_id now later : String) (s : EventStore) (v : StoredEvent)
    → event_of (marked_store event_id now s).events event_id ≡ some v
    → mark_transition_event_projected event_id later (marked_store event_id now s)
      ≡ ok (marked_store event_id now s)
unfolding mark_transition_event_projected
marked_again event_id now later s v h = ground (arith, h, none_pending event_id now later s.events)

project_known :
    (H : Material → String) (now event_id : String) (w : Workspace) (v : StoredEvent)
    (r x : RunReceipt)
    → event_of w.store.events event_id ≡ some v
    → canonical_receipt_from_event H v.event (entry_of w.store.entries event_id) ≡ ok r
    → find_receipt w.receipt_log event_id ≡ some x
    → receipt_eq x v.event.receipt_json ≡ true
    → mark_transition_event_projected event_id now w.store ≡ ok w.store
    → project_transition_event H now event_id w ≡ outcome_of r w
unfolding project_transition_event project_receipt finish_projection
project_known H now event_id w v r x a b c d e =
    rw (a, project_transition_event, b, c, project_receipt, d, if◌then◌else◌, e, finish_projection)
      refl

-- The row and the receipt that a successful projection has read.
record Read (H : Material → String) (now event_id : String) (w w' : Workspace) (r : RunReceipt)
    : Type 0 where
  row : StoredEvent
  row_found : event_of w.store.events event_id ≡ some row
  receipt : RunReceipt
  canonical :
      canonical_receipt_from_event H row.event (entry_of w.store.entries event_id) ≡ ok receipt
  projected : project_receipt now event_id receipt row.event.receipt_json w ≡ outcome_of r w'

project_transition_event-Read :
    (H : Material → String) (now event_id : String) (w w' : Workspace) (r : RunReceipt)
    → project_transition_event H now event_id w ≡ outcome_of r w'
    → Read H now event_id w w' r
unfolding project_transition_event
project_transition_event-Read H now event_id w w' r h =
    elim (Option-cases (event_of w.store.events event_id)) [
      | inl e ↦ absurd (ground (arith, e, h))
      | inr (v, e) ↦
          elim (Result-cases
            (canonical_receipt_from_event H v.event (entry_of w.store.entries event_id))) [
              | inl (receipt, c) ↦ record {
                row = v;
                row_found = e;
                receipt = receipt;
                canonical = c;
                projected = rw (e, project_transition_event, c) at h;
              }
              | inr (x, c) ↦ absurd (ground (arith, e, c, h))
            ]
    ]

-- A successful projection of a chained event leaves exactly what a second one needs: projecting the
-- event again, at any time, returns the same receipt and changes neither the log nor the database.
pub project_transition_event-again :
    (H : Material → String) (now later event_id : String) (w w' : Workspace) (r : RunReceipt)
    → is_some (entry_of w.store.entries event_id) ≡ true
    → project_transition_event H now event_id w ≡ (ok r, w')
    → project_transition_event H later event_id w' ≡ (ok r, w')
project_transition_event-again H now later event_id w w' r chained h =
    let d = project_transition_event-Read H now event_id w w' r h in
    elim (Option-cases (entry_of w.store.entries event_id)) [
      | inl n ↦ absurd (ground (arith, n, chained))
      | inr (c, n) ↦
          let (same, aligned) = canonical_run_id H d.row.event c d.receipt (rw n at d.canonical) in
          let (m, q) =
            find_first→in (λ v. v.event.event_id == event_id) w.store.events d.row_found in
          let i : d.row.event.receipt_json.run_id ≡ event_id =
            sym (ap (λ x. x.run_id) same)
            ∙ sym aligned
            ∙ (eq_iff d.row.event.event_id event_id).0 q in
          let l =
            project_receipt-Logged now event_id d.receipt d.row.event.receipt_json r w w' i
              d.projected in
          let (v, found, event_same) =
            event_of-marked event_id now w.store.events d.row d.row_found in
          project_known H later event_id w' v r l.existing
            (ap (λ s. event_of s.events event_id) l.stored ∙ found)
            (ap (λ e. canonical_receipt_from_event H e (entry_of w'.store.entries event_id))
                event_same
              ∙ ap (λ s. canonical_receipt_from_event H d.row.event (entry_of s.entries event_id))
                  l.stored
              ∙ d.canonical
              ∙ ap ok l.returned)
            l.found (ap (λ e. receipt_eq l.existing e.receipt_json) event_same ∙ l.agrees)
            (ap (mark_transition_event_projected event_id later) l.stored
              ∙ marked_again event_id now later w.store v found
              ∙ ap ok (sym l.stored))
    ]
