-- ===== src/Chain/Verifier.antt =====
-- The part of `verify_integrity` (integrity.py) about the canonical chain: activation checkpoint,
-- orphans, numbers, predecessors, receipts and head.
-- A failure keeps its code, event and number; its message and the sort of all failures are
-- left out, as its scope is always `canonical_chain` here.
use governed_signal_to_conte.Base.{
  Bool, List, Option, String, [], err, false, if◌then◌else◌, is_some, leb, length, ltb, map, nat_eq,
  none, not, ok, opt_eq, select, some, true, ℕ, ◌&&◌, ◌++◌, ◌+◌, ◌==◌, ◌∷◌,
}
use governed_signal_to_conte.Chain.Events.{calculate_activation_hash, canonical_receipt_from_event}
use governed_signal_to_conte.Chain.Material.{ChainEntry, ChainState, EventStore, Material}
use governed_signal_to_conte.Chain.Rows.{entry_of, event_of, has_metadata, in_order, legacy_events}
use governed_signal_to_conte.Receipts.Events.{TransitionEvent}

abbrev pub has_sequence : ℕ → Bool
has_sequence n = leb 1 n

pub record IntegrityFailure : Type 0 where
  pub code : String
  pub event_id : Option String
  pub event_sequence : Option ℕ

-- A row of the join of events with their chain entries.
pub record NativeRow : Type 0 where
  pub event : TransitionEvent
  pub entry : ChainEntry

-- `if c: failures.append(f)`
abbrev pub fail_if : Bool → IntegrityFailure → List IntegrityFailure
fail_if true f = f ∷ []
fail_if false f = []

abbrev pub chain_failure : String → IntegrityFailure
chain_failure code = record { code = code; event_id = none; event_sequence = none }

abbrev pub chain_failure_at : String → String → ℕ → IntegrityFailure
chain_failure_at code event_id n = record {
  code = code;
  event_id = some event_id;
  event_sequence = some n;
}

unfoldable pub insert_by : {A : Type 0} → (A → ℕ) → A → List A → List A
insert_by key x [] = x ∷ []
insert_by key x (y ∷ ys) =
    let rest = insert_by key x ys in if leb (key x) (key y) then x ∷ y ∷ ys else y ∷ rest

-- `sorted(rows, key=key)`, which is stable
unfoldable pub sort_by : {A : Type 0} → (A → ℕ) → List A → List A
unfolding insert_by
sort_by key [] = []
sort_by key (x ∷ xs) = insert_by key x (sort_by key xs)

-- The rows of the join with a chain entry.
abbrev pub join_entries : List ChainEntry → List TransitionEvent → List NativeRow
join_entries entries [] = []
join_entries entries (e ∷ es) =
    let rest = join_entries entries es in
    elim (entry_of entries e.event_id) [
      | none ↦ rest
      | some c ↦ record { event = e; entry = c } ∷ rest
    ]

unfoldable pub native_rows : EventStore → List NativeRow
unfolding in_order
native_rows s = join_entries s.entries (in_order (map (λ v. v.event) s.events))

abbrev pub row_sequence : NativeRow → ℕ
row_sequence r = r.entry.event_sequence

abbrev pub is_orphan : EventStore → ChainEntry → Bool
is_orphan s c = not (is_some (event_of s.events c.event_id))

abbrev pub orphan_failures : EventStore → List IntegrityFailure
orphan_failures s =
    map (λ c. chain_failure_at "orphan_chain_entry" c.event_id c.event_sequence)
      (sort_by (λ c. c.event_sequence) (select (is_orphan s) s.entries))

-- `max(rows, key=sequence)`, which takes the first of equal ones
abbrev pub latest_row : List NativeRow → Option NativeRow
latest_row [] = none
latest_row (r ∷ rs) = elim (latest_row rs) [
  | none ↦ some r
  | some t ↦ some (if ltb (row_sequence r) (row_sequence t) then t else r)
]

unfoldable pub head_matches : ChainState → String → Option NativeRow → Bool
head_matches c activation_hash none =
    nat_eq c.head_sequence 0 && opt_eq c.head_event_id none && c.head_event_hash == activation_hash
head_matches c activation_hash (some tail) =
    nat_eq c.head_sequence tail.entry.event_sequence
    && opt_eq c.head_event_id (some tail.event.event_id)
    && c.head_event_hash == tail.entry.event_hash

unfoldable pub checkpoint_matches : ChainState → ℕ → String → Bool
unfolding has_metadata
checkpoint_matches c legacy_event_count activation_hash =
    has_metadata c
    && nat_eq c.legacy_event_count legacy_event_count
    && c.activation_hash == activation_hash

-- The rows whose number is positive.
unfoldable pub valid_native_rows : EventStore → List NativeRow
unfolding native_rows
valid_native_rows s = select (λ r. has_sequence (row_sequence r)) (native_rows s)

abbrev pub sequence_failures : EventStore → List IntegrityFailure
sequence_failures s =
    map
      (λ r. record {
        code = "invalid_event_sequence";
        event_id = some r.event.event_id;
        event_sequence = none;
      })
      (select (λ r. not (has_sequence (row_sequence r))) (native_rows s))

module _ (canonical_json_hash : Material → String) where
  abbrev pub reads_back : NativeRow → Bool
  reads_back r = elim (canonical_receipt_from_event canonical_json_hash r.event (some r.entry)) [
    | ok receipt ↦ true
    | err e ↦ false
  ]

  -- One turn of the loop over the rows.
  abbrev pub row_failures : String → ℕ → NativeRow → List IntegrityFailure
  row_failures expected_previous expected_sequence r =
      fail_if (not (nat_eq (row_sequence r) expected_sequence))
        (chain_failure_at "sequence_discontinuity" r.event.event_id (row_sequence r))
      ++ (fail_if (not (r.entry.previous_event_hash == expected_previous))
            (chain_failure_at "predecessor_mismatch" r.event.event_id (row_sequence r))
          ++ fail_if (not (reads_back r))
              (chain_failure_at "event_hash_mismatch" r.event.event_id (row_sequence r)))

  unfoldable pub verify_rows : String → ℕ → List NativeRow → List IntegrityFailure
  unfolding canonical_receipt_from_event
  verify_rows expected_previous expected_sequence [] = []
  verify_rows expected_previous expected_sequence (r ∷ rs) =
      row_failures expected_previous expected_sequence r
      ++ verify_rows r.entry.event_hash (row_sequence r + 1) rs

  abbrev pub state_failures :
      Option ChainState → (ChainState → Bool) → String → List IntegrityFailure
  state_failures none test code = []
  state_failures (some c) test code = fail_if (not (test c)) (chain_failure code)

  unfoldable pub verify_canonical_chain : EventStore → List IntegrityFailure
  unfolding calculate_activation_hash legacy_events valid_native_rows verify_rows checkpoint_matches
      head_matches sort_by
  verify_canonical_chain s =
      let legacy = legacy_events s in
      let activation_hash = calculate_activation_hash canonical_json_hash legacy in
      let valid = valid_native_rows s in
      fail_if (not (is_some s.chain_state)) (chain_failure "missing_chain_state")
      ++ orphan_failures s
      ++ state_failures s.chain_state (λ c. checkpoint_matches c (length legacy) activation_hash)
          "activation_checkpoint_mismatch"
      ++ sequence_failures s
      ++ verify_rows activation_hash 1 (sort_by row_sequence valid)
      ++ state_failures s.chain_state (λ c. head_matches c activation_hash (latest_row valid))
          "chain_head_mismatch"
