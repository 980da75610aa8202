-- ===== src/Commit/Grants.antt =====
-- Tables of capability grants: distinct ids, unrevoked management grants, and what the inserts of
-- a grant and of a revocation (database.py) do to them.
use governed_signal_to_conte.Authorization.Evaluate.{is_revoked}
use governed_signal_to_conte.Base.{
  &&→right, Bool, In, List, String, [], any, ap, arith, eq_iff, false, inl, inr, in→any, not, ok,
  refl, sym, true, ◌&&◌, ◌++◌, ◌==◌, ◌∙◌, ◌∷◌, ◌≡◌,
}
use governed_signal_to_conte.Commit.Insert.{insert_capability_grant, insert_capability_revocation}
use governed_signal_to_conte.Database.{Database}
use governed_signal_to_conte.Tables.{CapabilityGrant, CapabilityRevocation}

module _ {A : Type 0} (p : A → Bool) where
  pub any-snoc : (xs : List A) (x : A) → any p xs ≡ true → any p (xs ++ x ∷ []) ≡ true
  any-snoc [] x h = cc
  any-snoc (y ∷ ys) x h = ground (arith, any-snoc ys x)

  pub any-snoc_last : (xs : List A) (x : A) → p x ≡ true → any p (xs ++ x ∷ []) ≡ true
  any-snoc_last [] x h = ground arith
  any-snoc_last (y ∷ ys) x h = ground (arith, any-snoc_last ys x)

  any-snoc_false :
      (xs : List A) (x : A) → any p xs ≡ false → p x ≡ false → any p (xs ++ x ∷ []) ≡ false
  any-snoc_false [] x h k = ground arith
  any-snoc_false (y ∷ ys) x h k = ground (arith, any-snoc_false ys x)

abbrev pub has_id : String → CapabilityGrant → Bool
has_id grant_id g = g.grant_id == grant_id

abbrev pub distinct_ids : List CapabilityGrant → Bool
distinct_ids [] = true
distinct_ids (g ∷ gs) = not (any (has_id g.grant_id) gs) && distinct_ids gs

has_id-sym : (g h : CapabilityGrant) → has_id g.grant_id h ≡ false → has_id h.grant_id g ≡ false
has_id-sym g h e = ground (arith, eq_iff h.grant_id g.grant_id, eq_iff g.grant_id h.grant_id)

pub distinct_ids-snoc :
    (gs : List CapabilityGrant) (g : CapabilityGrant)
    → distinct_ids gs ≡ true
    → any (has_id g.grant_id) gs ≡ false
    → distinct_ids (gs ++ g ∷ []) ≡ true
distinct_ids-snoc [] g h k = refl
distinct_ids-snoc (x ∷ xs) g h k =
    ground (arith, distinct_ids-snoc xs g, has_id-sym g x, any-snoc_false (has_id x.grant_id) xs g)

In-has_id :
    (gs : List CapabilityGrant) (g t : CapabilityGrant)
    → In g gs
    → t.grant_id ≡ g.grant_id
    → any (has_id t.grant_id) gs ≡ true
In-has_id gs g t m e = in→any (has_id t.grant_id) gs m ((eq_iff g.grant_id t.grant_id).1 (sym e))

pub distinct_ids_unique :
    (gs : List CapabilityGrant) (g t : CapabilityGrant)
    → distinct_ids gs ≡ true
    → In g gs
    → In t gs
    → t.grant_id ≡ g.grant_id
    → t ≡ g
distinct_ids_unique [] g t d m n e = absurd m
distinct_ids_unique (x ∷ xs) g t d (inl p) (inl q) e = q ∙ sym p
distinct_ids_unique (x ∷ xs) g t d (inl p) (inr n) e =
    ground (arith, In-has_id xs t g n (sym e), ap (λ y. y.grant_id) p)
distinct_ids_unique (x ∷ xs) g t d (inr m) (inl q) e =
    ground (arith, In-has_id xs g t m e, ap (λ y. y.grant_id) q)
distinct_ids_unique (x ∷ xs) g t d (inr m) (inr n) e =
    distinct_ids_unique xs g t (&&→right _ _ d) m n e

pub is_revoked-snoc :
    (vs : List CapabilityRevocation) (v : CapabilityRevocation) (grant_id : String)
    → is_revoked vs grant_id ≡ false
    → (v.grant_id == grant_id) ≡ false
    → is_revoked (vs ++ v ∷ []) grant_id ≡ false
unfolding is_revoked
is_revoked-snoc vs v grant_id h k = any-snoc_false (λ w. w.grant_id == grant_id) vs v h k

pub insert_capability_grant-frame :
    (g : CapabilityGrant) (db db' : Database)
    → insert_capability_grant g db ≡ ok db'
    → (any (has_id g.grant_id) db.capability_grants ≡ false)
      × (db' ≡ record db { capability_grants = db.capability_grants ++ g ∷ [] })
unfolding insert_capability_grant
insert_capability_grant-frame g db db' h = ground arith

pub insert_capability_revocation-frame :
    (v : CapabilityRevocation) (db db' : Database)
    → insert_capability_revocation v db ≡ ok db'
    → db' ≡ record db { capability_revocations = db.capability_revocations ++ v ∷ [] }
unfolding insert_capability_revocation
insert_capability_revocation-frame v db db' h = ground arith
