-- ===== src/Chain/Joined.antt =====
-- The rows that `verify_integrity` (integrity.py) reads: every event with a chain entry, and the one
-- with the highest number.
use governed_signal_to_conte.Base.{
  Bool-cases, In, List, Option-cases, [], ap, arith, if◌then◌else◌, inl, inr, leb, ltb, map, refl,
  select-In, some, some_injective, subst, sym, true, ℕ, ◌∙◌, ◌∷◌, ◌≡◌, ◌≤◌, ◌⊎◌,
}
use governed_signal_to_conte.Chain.Material.{ChainEntry, EventStore, StoredEvent}
use governed_signal_to_conte.Chain.Rows.{entry_of, in_order, insert_in_order, not_later}
use governed_signal_to_conte.Chain.Verifier.{
  NativeRow, has_sequence, insert_by, join_entries, latest_row, native_rows, row_sequence, sort_by,
  valid_native_rows,
}
use governed_signal_to_conte.Receipts.Events.{TransitionEvent}

In-insert_in_order :
    (e f : TransitionEvent) (fs : List TransitionEvent)
    → (e ≡ f) ⊎ In e fs
    → In e (insert_in_order f fs)
unfolding insert_in_order
In-insert_in_order e f [] m = m
In-insert_in_order e f (g ∷ gs) m = elim (Bool-cases (not_later f g)) [
  | inl h ↦ rw (h, if◌then◌else◌) m
  | inr h ↦
      rw (h, if◌then◌else◌)
        (elim m [
          | inl same ↦ inr (In-insert_in_order e f gs (inl same))
          | inr (inl same) ↦ inl same
          | inr (inr later) ↦ inr (In-insert_in_order e f gs (inr later))
        ])
]

In-in_order : (e : TransitionEvent) (es : List TransitionEvent) → In e es → In e (in_order es)
unfolding in_order
In-in_order e [] m = absurd m
In-in_order e (f ∷ fs) (inl same) = In-insert_in_order e f (in_order fs) (inl same)
In-in_order e (f ∷ fs) (inr m) = In-insert_in_order e f (in_order fs) (inr (In-in_order e fs m))

In-events : (v : StoredEvent) (vs : List StoredEvent) → In v vs → In v.event (map (λ x. x.event) vs)
In-events v [] m = absurd m
In-events v (w ∷ ws) (inl same) = inl (ap (λ x. x.event) same)
In-events v (w ∷ ws) (inr m) = inr (In-events v ws m)

abbrev pub row_of : TransitionEvent → ChainEntry → NativeRow
row_of e c = record { event = e; entry = c }

In-join_entries :
    (entries : List ChainEntry) (e : TransitionEvent) (c : ChainEntry) (es : List TransitionEvent)
    → In e es
    → entry_of entries e.event_id ≡ some c
    → In (row_of e c) (join_entries entries es)
In-join_entries entries e c [] m h = absurd m
In-join_entries entries e c (f ∷ fs) (inl same) h =
    let k = ap (λ x. entry_of entries x.event_id) (sym same) ∙ h in
    rw (join_entries, k) (inl (ap (λ x. row_of x c) same))
In-join_entries entries e c (f ∷ fs) (inr m) h =
    let later = In-join_entries entries e c fs m h in
    elim (Option-cases (entry_of entries f.event_id)) [
      | inl k ↦ rw (join_entries, k) later
      | inr (d, k) ↦ rw (join_entries, k) (inr later)
    ]

In-insert_by :
    {A : Type 0} (key : A → ℕ) (x y : A) (ys : List A)
    → (x ≡ y) ⊎ In x ys
    → In x (insert_by key y ys)
unfolding insert_by
In-insert_by key x y [] m = m
In-insert_by key x y (z ∷ zs) m = elim (Bool-cases (leb (key y) (key z))) [
  | inl h ↦ rw (h, if◌then◌else◌) m
  | inr h ↦
      rw (h, if◌then◌else◌)
        (elim m [
          | inl same ↦ inr (In-insert_by key x y zs (inl same))
          | inr (inl same) ↦ inl same
          | inr (inr later) ↦ inr (In-insert_by key x y zs (inr later))
        ])
]

In-sort_by : {A : Type 0} (key : A → ℕ) (x : A) (xs : List A) → In x xs → In x (sort_by key xs)
unfolding sort_by
In-sort_by key x [] m = absurd m
In-sort_by key x (y ∷ ys) (inl same) = In-insert_by key x y (sort_by key ys) (inl same)
In-sort_by key x (y ∷ ys) (inr m) =
    In-insert_by key x y (sort_by key ys) (inr (In-sort_by key x ys m))

pub native_rows-In :
    (s : EventStore) (v : StoredEvent) (c : ChainEntry)
    → In v s.events
    → entry_of s.entries v.event.event_id ≡ some c
    → In (row_of v.event c) (native_rows s)
unfolding native_rows
native_rows-In s v c m h =
    In-join_entries s.entries v.event c (in_order (map (λ x. x.event) s.events))
      (In-in_order v.event (map (λ x. x.event) s.events) (In-events v s.events m)) h

pub sorted-In :
    (s : EventStore) (r : NativeRow)
    → In r (native_rows s)
    → has_sequence (row_sequence r) ≡ true
    → In r (sort_by row_sequence (valid_native_rows s))
unfolding valid_native_rows
sorted-In s r m h =
    In-sort_by row_sequence r (valid_native_rows s)
      (select-In (λ x. has_sequence (row_sequence x)) (native_rows s) m h)

pub latest_row-highest :
    (r : NativeRow) (rs : List NativeRow)
    → In r rs
    → (t : NativeRow) × (latest_row rs ≡ some t) × (row_sequence r ≤ row_sequence t)
latest_row-highest r [] m = absurd m
latest_row-highest r (q ∷ qs) m = elim (Option-cases (latest_row qs)) [
  | inl e ↦ elim m [
    | inl same ↦ (q, rw (latest_row, e) refl, omega (arith, ap row_sequence same))
    | inr later ↦
        let (t, found, low) = latest_row-highest r qs later in absurd (ground (arith, e, found))
  ]
  | inr (t, e) ↦ elim (Bool-cases (ltb (row_sequence q) (row_sequence t))) [
    | inl h ↦ (
      t,
      rw (latest_row, e, h, if◌then◌else◌) refl,
      elim m [
        | inl same ↦ let at_q = ap row_sequence same in ground (arith, h, at_q)
        | inr later ↦
            let (u, found, low) = latest_row-highest r qs later in
            subst (λ z. row_sequence r ≤ row_sequence z) (some_injective u t (sym found ∙ e)) low
      ],
    )
    | inr h ↦ (
      q,
      rw (latest_row, e, h, if◌then◌else◌) refl,
      elim m [
        | inl same ↦ omega (arith, ap row_sequence same)
        | inr later ↦
            let (u, found, low) = latest_row-highest r qs later in
            let below =
              subst (λ z. row_sequence r ≤ row_sequence z) (some_injective u t (sym found ∙ e))
                low in
            ground (arith, h, below)
      ],
    )
  ]
]
