-- ===== src/Authorization/Rows.antt =====
-- The rows that the evaluator reads (authorization.py): the join and its order lose no grant and
-- make none up.
use governed_signal_to_conte.Authorization.Evaluate.{
  GrantRow, insert_row, is_revoked, join_row, join_rows, order_rows,
}
use governed_signal_to_conte.Base.{
  In, List, Option-cases, String, [], arith, eq_iff, inl, inr, is_some, some, true, ◌∷◌, ◌≡◌, ◌⊎◌,
}
use governed_signal_to_conte.Chain.Material.{ChainEntry}
use governed_signal_to_conte.Chain.Rows.{entry_of}
use governed_signal_to_conte.Tables.{CapabilityGrant, CapabilityRevocation}

-- What a row of the join says of its grant.
abbrev pub Joined : String → List ChainEntry → List CapabilityRevocation → GrantRow → Type 0
Joined p es vs row =
    (row.grant.subject_principal_id ≡ p)
    × (is_some (entry_of es row.grant.policy_event_id) ≡ true)
    × (row.revoked ≡ is_revoked vs row.grant.grant_id)

join_row-Joined :
    (p : String) (es : List ChainEntry) (vs : List CapabilityRevocation) (g : CapabilityGrant)
    (row : GrantRow)
    → join_row p es vs g ≡ some row
    → (row.grant ≡ g) × Joined p es vs row
unfolding join_row
join_row-Joined p es vs g row h = ground (arith, eq_iff g.subject_principal_id p)

pub join_row-some :
    (p : String) (es : List ChainEntry) (vs : List CapabilityRevocation) (g : CapabilityGrant)
    (c : ChainEntry)
    → g.subject_principal_id ≡ p
    → entry_of es g.policy_event_id ≡ some c
    → join_row p es vs g
      ≡ some (record {
        grant = g;
        event_sequence = c.event_sequence;
        revoked = is_revoked vs g.grant_id;
      })
unfolding join_row
join_row-some p es vs g c s e = ground (arith, eq_iff g.subject_principal_id p)

pub In-join_rows :
    (p : String) (es : List ChainEntry) (vs : List CapabilityRevocation) (gs : List CapabilityGrant)
    (row : GrantRow)
    → In row (join_rows p es vs gs)
    → In row.grant gs × Joined p es vs row
unfolding join_rows
In-join_rows p es vs [] row m = absurd m
In-join_rows p es vs (g ∷ gs) row m = elim (Option-cases (join_row p es vs g)) [
  | inl e ↦ ground (arith, In-join_rows p es vs gs row)
  | inr (r, e) ↦ ground (arith, In-join_rows p es vs gs row, join_row-Joined p es vs g r e)
]

pub join_rows-In :
    (p : String) (es : List ChainEntry) (vs : List CapabilityRevocation) (gs : List CapabilityGrant)
    (g : CapabilityGrant) (row : GrantRow)
    → In g gs
    → join_row p es vs g ≡ some row
    → In row (join_rows p es vs gs)
unfolding join_rows
join_rows-In p es vs [] g row m e = absurd m
join_rows-In p es vs (h ∷ gs) g row m e = ground (arith, join_rows-In p es vs gs g row)

In-insert_row : (r x : GrantRow) (rs : List GrantRow) → In x (insert_row r rs) → (x ≡ r) ⊎ In x rs
unfolding insert_row
In-insert_row r x [] m = ground arith
In-insert_row r x (s ∷ ss) m = ground (arith, In-insert_row r x ss)

insert_row-In : (r x : GrantRow) (rs : List GrantRow) → (x ≡ r) ⊎ In x rs → In x (insert_row r rs)
unfolding insert_row
insert_row-In r x [] m = ground arith
insert_row-In r x (s ∷ ss) m = ground (arith, insert_row-In r x ss)

pub In-order_rows : (x : GrantRow) (rs : List GrantRow) → In x (order_rows rs) → In x rs
unfolding order_rows
In-order_rows x [] m = m
In-order_rows x (r ∷ rs) m = ground (arith, In-insert_row r x (order_rows rs) m, In-order_rows x rs)

pub order_rows-In : (x : GrantRow) (rs : List GrantRow) → In x rs → In x (order_rows rs)
unfolding order_rows
order_rows-In x [] m = m
order_rows-In x (r ∷ rs) (inl e) = insert_row-In r x (order_rows rs) (inl e)
order_rows-In x (r ∷ rs) (inr m) = insert_row-In r x (order_rows rs) (inr (order_rows-In x rs m))
