-- ===== src/Chain/Verified.antt =====
-- What the canonical-chain part of `verify_integrity` (integrity.py) accepts.
use governed_signal_to_conte.Base.{
  >>=-eq-ok, Bool, Bool-cases, In, List, Option, Option-cases, Result-cases, String, [], ap, arith,
  eq_iff, false, inl, inr, is_some, length, map, nat_eq, none, not, not-false, ok, raise_if, refl,
  select, select-In, some, subst, suc, sym, true, ℕ, ◌++◌, ◌+◌, ◌==◌, ◌↔◌, ◌∙◌, ◌∷◌, ◌≡◌, ◌≤◌,
}
use governed_signal_to_conte.Chain.Events.{
  calculate_activation_hash, calculate_event_hash, canonical_receipt_from_event,
  validate_event_receipt_alignment,
}
use governed_signal_to_conte.Chain.Heads.{
  IsCheckpoint, IsCheckpoint-checkpoint_matches, IsHead, IsHead-head_matches,
  checkpoint_matches-IsCheckpoint, head_matches-IsHead,
}
use governed_signal_to_conte.Chain.Invariant.{Linked}
use governed_signal_to_conte.Chain.Joined.{latest_row-highest, native_rows-In, row_of, sorted-In}
use governed_signal_to_conte.Chain.Material.{
  ChainEntry, ChainState, EventStore, Material, StoredEvent,
}
use governed_signal_to_conte.Chain.Rows.{
  chain_matches, entry_of, event_of, legacy_events, without_hash,
}
use governed_signal_to_conte.Chain.Verifier.{
  IntegrityFailure, NativeRow, chain_failure, checkpoint_matches, fail_if, has_sequence,
  head_matches, insert_by, is_orphan, latest_row, native_rows, orphan_failures, reads_back,
  row_failures, row_sequence, sequence_failures, sort_by, state_failures, valid_native_rows,
  verify_canonical_chain, verify_rows,
}
use governed_signal_to_conte.Receipts.Events.{TransitionEvent}
use governed_signal_to_conte.Receipts.Fields.{RunReceipt}
use governed_signal_to_conte.Receipts.Validation.{validate_receipt}

++_nil : {A : Type 0} (xs ys : List A) → xs ++ ys ≡ [] → (xs ≡ []) × (ys ≡ [])
++_nil [] ys h = (refl, h)
++_nil (x ∷ xs) ys h = cc

map_nil : {A B : Type 0} (f : A → B) (xs : List A) → map f xs ≡ [] → xs ≡ []
map_nil f [] h = refl
map_nil f (x ∷ xs) h = cc

fail_if_nil : (b : Bool) (f : IntegrityFailure) → fail_if (not b) f ≡ [] → b ≡ true
fail_if_nil true f h = refl
fail_if_nil false f h = cc

select_nil :
    {A : Type 0} (p : A → Bool) (xs : List A) (a : A) → select p xs ≡ [] → In a xs → p a ≡ false
select_nil p [] a h m = absurd m
select_nil p (x ∷ xs) a h m = elim (Bool-cases (p x)) [
  | inl e ↦ ground (arith, e, h)
  | inr e ↦ ground (arith, e, h, m, select_nil p xs a)
]

select_all_nil :
    {A : Type 0} (p : A → Bool) (xs : List A) → ((a : A) → In a xs → p a ≡ false) → select p xs ≡ []
select_all_nil p [] h = refl
select_all_nil p (x ∷ xs) h =
    let first = h x (inl refl) in
    let rest = select_all_nil p xs (λ a m. h a (inr m)) in ground (arith, first, rest)

insert_by_nil : {A : Type 0} (key : A → ℕ) (x : A) (xs : List A) → insert_by key x xs ≡ [] → ⊥
unfolding insert_by
insert_by_nil key x [] h = cc
insert_by_nil key x (y ∷ ys) h = ground arith

sort_by_nil : {A : Type 0} (key : A → ℕ) (xs : List A) → sort_by key xs ≡ [] → xs ≡ []
unfolding sort_by
sort_by_nil key [] h = refl
sort_by_nil key (x ∷ xs) h = absurd (insert_by_nil key x (sort_by key xs) h)

-- The rows of the join in the order of their numbers.
abbrev pub chain_rows : EventStore → List NativeRow
chain_rows s = sort_by row_sequence (valid_native_rows s)

abbrev pub IsCanonicalRow : (Material → String) → NativeRow → Type 0
IsCanonicalRow H r = canonical_receipt_from_event H r.event (some r.entry) ≡ ok r.event.receipt_json

canonical_receipt_from_event-same :
    (H : Material → String) (e : TransitionEvent) (c : ChainEntry) (r : RunReceipt)
    → canonical_receipt_from_event H e (some c) ≡ ok r
    → canonical_receipt_from_event H e (some c) ≡ ok e.receipt_json
unfolding canonical_receipt_from_event
canonical_receipt_from_event-same H e c r h =
    let (u₁, e₁, h₁) = >>=-eq-ok (validate_receipt e.receipt_json) _ h in
    let (u₂, e₂, h₂) = >>=-eq-ok (raise_if (not (chain_matches e.receipt_json.chain c)) _) _ h₁ in
    let hash =
      calculate_event_hash H e c.event_sequence c.previous_event_hash (without_hash e.receipt_json)
        c.chain_version c.chain_origin in
    let (u₃, e₃, h₃) = >>=-eq-ok (raise_if (not (hash == c.event_hash)) _) _ h₂ in
    let (u₄, e₄, h₄) = >>=-eq-ok (validate_event_receipt_alignment e e.receipt_json) _ h₃ in
    h ∙ sym h₄

reads_back-IsCanonicalRow :
    (H : Material → String) (r : NativeRow) → reads_back H r ≡ true → IsCanonicalRow H r
reads_back-IsCanonicalRow H r h =
    elim (Result-cases (canonical_receipt_from_event H r.event (some r.entry))) [
      | inl (receipt, e) ↦ canonical_receipt_from_event-same H r.event r.entry receipt e
      | inr (x, e) ↦ ground (arith, e, h)
    ]

IsCanonicalRow-reads_back :
    (H : Material → String) (r : NativeRow) → IsCanonicalRow H r → reads_back H r ≡ true
IsCanonicalRow-reads_back H r h = rw (reads_back, h) refl

module _ (H : Material → String) where
  -- Rows that are linked and read back.
  abbrev pub IsVerified : String → ℕ → List NativeRow → Type 0
  IsVerified h n rows =
      Linked h n (map (λ r. r.entry) rows) × ((r : NativeRow) → In r rows → IsCanonicalRow H r)

  verify_rows-IsVerified :
      (h : String) (n : ℕ) (rows : List NativeRow)
      → verify_rows H h n rows ≡ []
      → IsVerified h n rows
  unfolding verify_rows
  verify_rows-IsVerified h n [] e = (tt, λ r m. absurd m)
  verify_rows-IsVerified h n (r ∷ rs) e =
      let (e₀, f₃) =
        ++_nil (row_failures H h n r) (verify_rows H r.entry.event_hash (row_sequence r + 1) rs)
          e in
      let (e₁, f₁) = ++_nil (fail_if (not (nat_eq (row_sequence r) n)) _) _ e₀ in
      let (e₂, e₃) =
        ++_nil (fail_if (not (r.entry.previous_event_hash == h)) _)
          (fail_if (not (reads_back H r)) _) f₁ in
      let sequence = fail_if_nil (nat_eq (row_sequence r) n) _ e₁ in
      let same : row_sequence r ≡ n = ground arith in
      let next : row_sequence r + 1 ≡ suc n = omega (arith, same) in
      let previous = (eq_iff r.entry.previous_event_hash h).0 (fail_if_nil _ _ e₂) in
      let canonical = reads_back-IsCanonicalRow H r (fail_if_nil (reads_back H r) _ e₃) in
      let (linked, every) =
        verify_rows-IsVerified r.entry.event_hash (suc n) rs
          (subst (λ k. verify_rows H r.entry.event_hash k rs ≡ []) next f₃) in
      (
        (same, previous, linked),
        λ q m. elim m [ inl i ↦ subst (IsCanonicalRow H) (sym i) canonical | inr i ↦ every q i ],
      )

  IsVerified-verify_rows :
      (h : String) (n : ℕ) (rows : List NativeRow)
      → IsVerified h n rows
      → verify_rows H h n rows ≡ []
  unfolding verify_rows
  IsVerified-verify_rows h n [] v = refl
  IsVerified-verify_rows h n (r ∷ rs) ((same, previous, linked), every) =
      let sequence : nat_eq (row_sequence r) n ≡ true = ground arith in
      let next : row_sequence r + 1 ≡ suc n = omega (arith, same) in
      let back = IsCanonicalRow-reads_back H r (every r (inl refl)) in
      let rest =
        IsVerified-verify_rows r.entry.event_hash (suc n) rs (linked, λ q m. every q (inr m)) in
      rw (sequence, (eq_iff r.entry.previous_event_hash h).1 previous, back, next, rest) refl

-- A chain that is intact in the sense of `verify_integrity`.
pub record IsIntact (H : Material → String) (s : EventStore) : Type 0 where
  pub state : ChainState
  pub activated : s.chain_state ≡ some state
  pub owned : (c : ChainEntry) → In c s.entries → is_some (event_of s.events c.event_id) ≡ true
  pub checkpoint :
      IsCheckpoint state (length (legacy_events s)) (calculate_activation_hash H (legacy_events s))
  pub numbered : (r : NativeRow) → In r (native_rows s) → has_sequence (row_sequence r) ≡ true
  pub verified : IsVerified H (calculate_activation_hash H (legacy_events s)) 1 (chain_rows s)
  pub head :
      IsHead state
        (calculate_activation_hash H (legacy_events s))
        (latest_row (valid_native_rows s))
  pub highest : (r : NativeRow) → In r (native_rows s) → row_sequence r ≤ state.head_sequence
  pub complete :
      (v : StoredEvent) (c : ChainEntry)
      → In v s.events
      → entry_of s.entries v.event.event_id ≡ some c
      → In (row_of v.event c) (chain_rows s)

IsHead-highest :
    (s : EventStore) (c : ChainState) (h : String) (r : NativeRow)
    → IsHead c h (latest_row (valid_native_rows s))
    → has_sequence (row_sequence r) ≡ true
    → In r (native_rows s)
    → row_sequence r ≤ c.head_sequence
unfolding valid_native_rows
IsHead-highest s c h r head positive m =
    let (t, found, low) =
      latest_row-highest r (valid_native_rows s)
        (select-In (λ x. has_sequence (row_sequence x)) (native_rows s) m positive) in
    let (same, id, hash) = subst (IsHead c h) found head in omega (arith, low, same)

missing_state :
    (c : Option ChainState) (f : IntegrityFailure) → c ≡ none → fail_if (not (is_some c)) f ≡ [] → ⊥
missing_state none f e h = cc
missing_state (some c) f e h = cc

verify_canonical_chain-IsIntact :
    (H : Material → String) (s : EventStore) → verify_canonical_chain H s ≡ [] → IsIntact H s
unfolding verify_canonical_chain
verify_canonical_chain-IsIntact H s h =
    let activation_hash = calculate_activation_hash H (legacy_events s) in
    let (h₅, e₆) =
      ++_nil _
        (state_failures H s.chain_state
          (λ c. head_matches c activation_hash (latest_row (valid_native_rows s)))
          "chain_head_mismatch")
        h in
    let (h₄, e₅) = ++_nil _ (verify_rows H activation_hash 1 (chain_rows s)) h₅ in
    let (h₃, e₄) = ++_nil _ (sequence_failures s) h₄ in
    let (h₂, e₃) =
      ++_nil _
        (state_failures H s.chain_state
          (λ c. checkpoint_matches c (length (legacy_events s)) activation_hash)
          "activation_checkpoint_mismatch")
        h₃ in
    let (e₁, e₂) =
      ++_nil (fail_if (not (is_some s.chain_state)) (chain_failure "missing_chain_state"))
        (orphan_failures s) h₂ in
    elim (Option-cases s.chain_state) [
      | inl e ↦ absurd (missing_state s.chain_state _ e e₁)
      | inr (state, e) ↦
          let head = head_matches-IsHead state activation_hash _ (fail_if_nil _ _ (rw e at e₆)) in
          let numbered = λ (r : NativeRow) (m : In r (native_rows s)).
            not-false (has_sequence (row_sequence r))
              (select_nil _ (native_rows s) r (map_nil _ _ e₄) m) in
          record {
            state = state;
            activated = e;
            owned = λ c m.
                not-false _
                  (select_nil (is_orphan s) s.entries c (sort_by_nil _ _ (map_nil _ _ e₂)) m);
            checkpoint = checkpoint_matches-IsCheckpoint state _ _ (fail_if_nil _ _ (rw e at e₃));
            numbered = λ r m. not-false _ (select_nil _ (native_rows s) r (map_nil _ _ e₄) m);
            verified = verify_rows-IsVerified H activation_hash 1 (chain_rows s) e₅;
            head = head;
            highest = λ r m. IsHead-highest s state activation_hash r head (numbered r m) m;
            complete = λ v c m k.
                let joined = native_rows-In s v c m k in
                sorted-In s (row_of v.event c) joined (numbered (row_of v.event c) joined);
          }
    ]

IsIntact-verify_canonical_chain :
    (H : Material → String) (s : EventStore) → IsIntact H s → verify_canonical_chain H s ≡ []
unfolding verify_canonical_chain
IsIntact-verify_canonical_chain H s w =
    let orphans = select_all_nil (is_orphan s) s.entries (λ c m. ap not (w.owned c m)) in
    let numbers =
      select_all_nil (λ r. not (has_sequence (row_sequence r))) (native_rows s)
        (λ r m. ap not (w.numbered r m)) in
    let rows = IsVerified-verify_rows H _ 1 (chain_rows s) w.verified in
    let start = IsCheckpoint-checkpoint_matches w.state _ _ w.checkpoint in
    let head = IsHead-head_matches w.state _ _ w.head in
    rw (w.activated, orphans, numbers, rows, start, head) refl

-- The verifier of the canonical chain reports no failure exactly when the chain is intact: it is
-- activated, every entry has its event, the activation checkpoint is the one computed again from
-- the events without an entry, the rows in the order of their numbers, with a row for every event
-- that has an entry, are numbered from 1, name their predecessors' hashes from the checkpoint on and
-- read back against their entries, and the head names the row with the highest number.
pub verify_canonical_chain_iff :
    (H : Material → String) (s : EventStore) → (verify_canonical_chain H s ≡ []) ↔ IsIntact H s
verify_canonical_chain_iff H s =
    (verify_canonical_chain-IsIntact H s, IsIntact-verify_canonical_chain H s)
