-- ===== src/Effects/Released.antt =====
-- The evidence of a release that is found (external_effects.py) is what it has to be.
use governed_signal_to_conte.Base.{
  Bool-cases, In, List, Option, Option-cases, String, [], ap, arith, if◌then◌else◌, inl, inr, ltb,
  none, refl, some, some_injective, subst, sym, true, ℕ, ◌∙◌, ◌∷◌, ◌≡◌, ◌≤◌, ◌⊎◌,
}
use governed_signal_to_conte.Chain.Material.{ChainEntry, StoredEvent}
use governed_signal_to_conte.Chain.Rows.{entry_of}
use governed_signal_to_conte.Effects.Release.{ReleaseRow, is_release, later_release, latest_release}

later_release-cases :
    (r : ReleaseRow) (o : Option ReleaseRow)
    → (later_release r o ≡ r) ⊎ ((s : ReleaseRow) × (o ≡ some s) × (later_release r o ≡ s))
later_release-cases r none = inl refl
later_release-cases r (some s) =
    elim (Bool-cases (ltb r.entry.event_sequence s.entry.event_sequence)) [
      | inl e ↦ inr (s, refl, rw (e, if◌then◌else◌) refl)
      | inr e ↦ inl (rw (e, if◌then◌else◌) refl)
    ]

abbrev sequence_of : ReleaseRow → ℕ
sequence_of r = r.entry.event_sequence

later_release-first :
    (r : ReleaseRow) (o : Option ReleaseRow) → sequence_of r ≤ sequence_of (later_release r o)
later_release-first r none = ground arith
later_release-first r (some s) = elim (Bool-cases (ltb (sequence_of r) (sequence_of s))) [
  | inl e ↦ rw (e, if◌then◌else◌) (ground (arith, e))
  | inr e ↦ rw (e, if◌then◌else◌) (ground arith)
]

later_release-second : (r s : ReleaseRow) → sequence_of s ≤ sequence_of (later_release r (some s))
later_release-second r s = elim (Bool-cases (ltb (sequence_of r) (sequence_of s))) [
  | inl e ↦ rw (e, if◌then◌else◌) (ground arith)
  | inr e ↦ rw (e, if◌then◌else◌) (ground (arith, e))
]

-- A row that the query joins.
pub record IsRow (entries : List ChainEntry) (packet_id : String) (vs : List StoredEvent)
    (r : ReleaseRow) : Type 0 where
  pub stored : StoredEvent
  pub in_events : In stored vs
  pub is_event : stored.event ≡ r.event
  pub chained : entry_of entries r.event.event_id ≡ some r.entry
  pub releases : is_release packet_id r.event ≡ true

IsRow-more :
    (entries : List ChainEntry) (packet_id : String) (v : StoredEvent) (vs : List StoredEvent)
    (r : ReleaseRow)
    → IsRow entries packet_id vs r
    → IsRow entries packet_id (v ∷ vs) r
IsRow-more entries packet_id v vs r i = record {
  stored = i.stored;
  in_events = inr i.in_events;
  is_event = i.is_event;
  chained = i.chained;
  releases = i.releases;
}

pub latest_release-IsRow :
    (entries : List ChainEntry) (packet_id : String) (vs : List StoredEvent) (r : ReleaseRow)
    → latest_release entries packet_id vs ≡ some r
    → IsRow entries packet_id vs r
unfolding latest_release
latest_release-IsRow entries packet_id [] r h = cc
latest_release-IsRow entries packet_id (v ∷ vs) r h =
    let older = latest_release-IsRow entries packet_id vs in
    elim (Bool-cases (is_release packet_id v.event)) [
      | inr e ↦ IsRow-more entries packet_id v vs r (older r (rw (e, latest_release) at h))
      | inl e ↦ elim (Option-cases (entry_of entries v.event.event_id)) [
        | inl f ↦ IsRow-more entries packet_id v vs r (older r (rw (e, latest_release, f) at h))
        | inr (c, f) ↦
            let first : ReleaseRow = record { event = v.event; entry = c } in
            let rest = latest_release entries packet_id vs in
            let made : later_release first rest ≡ r =
              some_injective (later_release first rest) r (rw (e, latest_release, f) at h) in
            elim (later_release-cases first rest) [
              | inl same ↦ subst (IsRow entries packet_id (v ∷ vs)) (sym same ∙ made) (record {
                stored = v;
                in_events = inl refl;
                is_event = refl;
                chained = f;
                releases = e;
              })
              | inr (s, found, same) ↦
                  subst (IsRow entries packet_id (v ∷ vs)) (sym same ∙ made)
                    (IsRow-more entries packet_id v vs s (older s found))
            ]
      ]
    ]

-- The row that is found has the highest number.
pub latest_release-above :
    (entries : List ChainEntry) (packet_id : String) (vs : List StoredEvent) (w : StoredEvent)
    (d : ChainEntry)
    → In w vs
    → is_release packet_id w.event ≡ true
    → entry_of entries w.event.event_id ≡ some d
    → (r : ReleaseRow) × (latest_release entries packet_id vs ≡ some r)
      × (d.event_sequence ≤ sequence_of r)
unfolding latest_release
latest_release-above entries packet_id [] w d m e f = absurd m
latest_release-above entries packet_id (v ∷ vs) w d (inl same) e f =
    let e' = ap (λ z. is_release packet_id z.event) (sym same) ∙ e in
    let f' = ap (λ z. entry_of entries z.event.event_id) (sym same) ∙ f in
    let first : ReleaseRow = record { event = v.event; entry = d } in
    let rest = latest_release entries packet_id vs in
    (later_release first rest, rw (e', latest_release, f') refl, later_release-first first rest)
latest_release-above entries packet_id (v ∷ vs) w d (inr m) e f =
    let (s, found, low) = latest_release-above entries packet_id vs w d m e f in
    elim (Bool-cases (is_release packet_id v.event)) [
      | inr g ↦ (s, rw (g, latest_release) found, low)
      | inl g ↦ elim (Option-cases (entry_of entries v.event.event_id)) [
        | inl k ↦ (s, rw (g, latest_release, k) found, low)
        | inr (c, k) ↦
            let first : ReleaseRow = record { event = v.event; entry = c } in
            let high = later_release-second first s in
            (
              later_release first (some s),
              rw (g, latest_release, k, found) refl,
              omega (arith, low, high),
            )
      ]
    ]
