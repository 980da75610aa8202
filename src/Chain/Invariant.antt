-- ===== src/Chain/Invariant.antt =====
-- The invariant of the canonical chain (database.py, integrity.py): entries numbered from 1, each
-- naming its predecessor's hash and having an event that reads back, and a head at the last one.
use governed_signal_to_conte.Base.{
  In, In-snoc, List, String, [], ap, arith, inl, inr, length, ok, refl, snoc-In, some,
  some_injective, subst, suc, sym, ℕ, ◌++◌, ◌+◌, ◌∙◌, ◌∷◌, ◌≡◌,
}
use governed_signal_to_conte.Chain.Append.{insert_transition_event}
use governed_signal_to_conte.Chain.Events.{PreparedChainedEvent, canonical_receipt_from_event}
use governed_signal_to_conte.Chain.Linked.{
  insert_transition_event-Appended, new_event, new_state, with_event,
}
use governed_signal_to_conte.Chain.Material.{
  ChainEntry, ChainState, EventStore, Material, StoredEvent,
}
use governed_signal_to_conte.Chain.Roundtrip.{
  ReadsBack, prepare_chained_event-ReadsBack, prepared_entry,
}
use governed_signal_to_conte.Receipts.Events.{TransitionEvent}

-- The hash that the next entry must name.
abbrev pub last_hash : String → List ChainEntry → String
last_hash h [] = h
last_hash h (c ∷ cs) = last_hash c.event_hash cs

-- Entries that continue a chain of the given hash from the given number on.
abbrev pub Linked : String → ℕ → List ChainEntry → Type 0
Linked h n [] = Unit
Linked h n (c ∷ cs) =
    (c.event_sequence ≡ n) × (c.previous_event_hash ≡ h) × Linked c.event_hash (suc n) cs

-- A stored event of an entry, whose receipt passes the check against the entry.
abbrev pub IsCanonical : (Material → String) → List StoredEvent → ChainEntry → Type 0
IsCanonical H events c =
    (v : StoredEvent) × In v events
    × (v.event.event_id ≡ c.event_id)
    × (canonical_receipt_from_event H v.event (some c) ≡ ok v.event.receipt_json)

pub record IsChain (H : Material → String) (s : EventStore) : Type 0 where
  pub state : ChainState
  pub activated : s.chain_state ≡ some state
  pub linked : Linked state.activation_hash 1 s.entries
  pub counted : state.head_sequence ≡ length s.entries
  pub head : state.head_event_hash ≡ last_hash state.activation_hash s.entries
  pub canonical : (c : ChainEntry) → In c s.entries → IsCanonical H s.events c

Linked-snoc :
    (h : String) (n : ℕ) (cs : List ChainEntry) (c : ChainEntry)
    → Linked h n cs
    → c.event_sequence ≡ n + length cs
    → c.previous_event_hash ≡ last_hash h cs
    → Linked h n (cs ++ c ∷ [])
Linked-snoc h n [] c l e p = (omega (arith, e), p, tt)
Linked-snoc h n (d ∷ ds) c (a, b, l) e p =
    (a, b, Linked-snoc d.event_hash (suc n) ds c l (omega (arith, e)) p)

last_hash-snoc :
    (h : String) (cs : List ChainEntry) (c : ChainEntry) → last_hash h (cs ++ c ∷ []) ≡ c.event_hash
last_hash-snoc h [] c = refl
last_hash-snoc h (d ∷ ds) c = last_hash-snoc d.event_hash ds c

length-snoc : {A : Type 0} (xs : List A) (x : A) → length (xs ++ x ∷ []) ≡ suc (length xs)
length-snoc [] x = refl
length-snoc (y ∷ ys) x = ap suc (length-snoc ys x)

IsCanonical-snoc :
    (H : Material → String) (vs : List StoredEvent) (v : StoredEvent) (c : ChainEntry)
    → IsCanonical H vs c
    → IsCanonical H (vs ++ v ∷ []) c
IsCanonical-snoc H vs v c (w, m, i, r) = (w, snoc-In w v vs (inl m), i, r)

with_event-IsChain :
    (H : Material → String) (e : TransitionEvent) (p : PreparedChainedEvent) (s : EventStore)
    (w : IsChain H s)
    → ReadsBack H e (w.state.head_sequence + 1) w.state.head_event_hash p
    → IsChain H (with_event e p w.state s)
with_event-IsChain H e p s w (r, n, h) = record {
  state = new_state e p w.state;
  activated = refl;
  linked =
      Linked-snoc w.state.activation_hash 1 s.entries (prepared_entry e.event_id p) w.linked
        (omega (arith, n, w.counted)) (h ∙ w.head);
  counted = omega (arith, n, w.counted, length-snoc s.entries (prepared_entry e.event_id p));
  head = sym (last_hash-snoc w.state.activation_hash s.entries (prepared_entry e.event_id p));
  canonical = λ c m. elim (In-snoc c (prepared_entry e.event_id p) s.entries m) [
    | inl k ↦ IsCanonical-snoc H s.events (new_event e p) c (w.canonical c k)
    | inr k ↦
        subst (IsCanonical H (s.events ++ new_event e p ∷ [])) (sym k)
          (new_event e p, snoc-In (new_event e p) (new_event e p) s.events (inr refl), refl, r)
  ];
}

-- A successful append to an intact chain (numbered from 1, linked, each entry with an event that
-- reads back, the head at the last entry) gives an intact chain, and has only added one event and
-- its entry at the end.
pub insert_transition_event-IsChain :
    (H : Material → String) (e : TransitionEvent) (p : PreparedChainedEvent) (s s' : EventStore)
    → IsChain H s
    → insert_transition_event H e s ≡ ok (p, s')
    → IsChain H s'
      × (s'.events ≡ s.events ++ new_event e p ∷ [])
      × (s'.entries ≡ s.entries ++ prepared_entry e.event_id p ∷ [])
insert_transition_event-IsChain H e p s s' w h =
    let a = insert_transition_event-Appended H e p s s' h in
    let same : a.state ≡ w.state = some_injective a.state w.state (sym a.activated ∙ w.activated) in
    let back = prepare_chained_event-ReadsBack H e _ _ p a.prepared in
    (
      subst (IsChain H) (sym (a.written ∙ ap (λ c. with_event e p c s) same)) (
          with_event-IsChain H e p s w
            (subst (λ c. ReadsBack H e (c.head_sequence + 1) c.head_event_hash p) same back)),
      ap (λ x. x.events) a.written,
      ap (λ x. x.entries) a.written,
    )
