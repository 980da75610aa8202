-- ===== src/Duplicates/Matching.antt =====
-- When the duplicate check (deduplication.py) finds a duplicate.
use governed_signal_to_conte.Base.{
  >>=-eq-ok, Bool, Bool-cases, In, In-select, List, Option, String, [], any, any→in, ap, arith,
  eq_iff, false, find_first→in, inl, inr, in→any, is_empty, is_empty_of_In, none, not, ok,
  ok_injective, opt_eq, opt_eq_refl, or_raise, or_raise-some, refl, select-In, some, subst, sym,
  true, ◌&&◌, ◌++◌, ◌==◌, ◌∙◌, ◌∷◌, ◌≡◌, ◌⊎◌,
}
use governed_signal_to_conte.Commit.Progress.{find_candidate}
use governed_signal_to_conte.Database.{Database}
use governed_signal_to_conte.Duplicates.{
  Verdict, all_reasons, deduplicate, deduplicate_candidate, duplicate_reasons, insert_text,
  is_given, other_candidates, reason_if, reasons_with, shared_identifiers, sorted_set,
}
use governed_signal_to_conte.Tables.{Candidate}
use governed_signal_to_conte.Workflow.{duplicate_checked, suppressed}

-- Two candidates with the same identity, the same URL, or an identifier in common.
pub data IsDuplicate (c o : Candidate) : Type 0 where
  same_identity : c.source_identity ≡ o.source_identity → IsDuplicate c o
  same_url :
      (u : String)
      → (u == "") ≡ false
      → c.normalized_url ≡ some u
      → o.normalized_url ≡ some u
      → IsDuplicate c o
  same_identifier :
      (i : String)
      → In i c.development_identifiers
      → In i o.development_identifiers
      → IsDuplicate c o

-- A candidate of the table that is not the one that is checked, and duplicates it.
abbrev pub HasDuplicate : Database → Candidate → Type 0
HasDuplicate db c =
    (o : Candidate) × In o db.candidates
    × ((o.candidate_id == c.candidate_id) ≡ false)
    × IsDuplicate c o

-- The check of a candidate, by its outcome.
abbrev pub IsChecked : Database → Candidate → Verdict → Type 0
IsChecked db c v =
    (HasDuplicate db c × (v.target ≡ suppressed) × (v.duplicate ≡ true))
    ⊎ ((¬ HasDuplicate db c) × (v.target ≡ duplicate_checked) × (v.duplicate ≡ false))

is_empty_append : {A : Type 0} (xs ys : List A) → is_empty (xs ++ ys) ≡ (is_empty xs && is_empty ys)
is_empty_append [] ys = refl
is_empty_append (x ∷ xs) ys = refl

insert_text-is_empty : (a : String) (bs : List String) → is_empty (insert_text a bs) ≡ false
unfolding insert_text
insert_text-is_empty a [] = refl
insert_text-is_empty a (b ∷ bs) = ground arith

sorted_set-is_empty : (xs : List String) → is_empty (sorted_set xs) ≡ is_empty xs
unfolding sorted_set
sorted_set-is_empty [] = refl
sorted_set-is_empty (x ∷ xs) = insert_text-is_empty x (sorted_set xs)

reason_if-is_empty : (b : Bool) (t : String) → is_empty (reason_if b t) ≡ not b
reason_if-is_empty true t = refl
reason_if-is_empty false t = refl

not_empty-In : {A : Type 0} (xs : List A) → is_empty xs ≡ false → (x : A) × In x xs
not_empty-In [] h = cc
not_empty-In (x ∷ xs) h = (x, inl refl)

opt_given :
    (a b : Option String)
    → (is_given a && opt_eq a b) ≡ true
    → (u : String) × ((u == "") ≡ false) × (a ≡ some u) × (b ≡ some u)
unfolding opt_eq
opt_given none b h = cc
opt_given (some u) none h = ground arith
opt_given (some u) (some v) h =
    (u, ground arith, refl, ap some (sym ((eq_iff u v).0 (ground arith))))

given_opt :
    (a b : Option String) (u : String)
    → (u == "") ≡ false
    → a ≡ some u
    → b ≡ some u
    → (is_given a && opt_eq a b) ≡ true
given_opt a b u h p q = rw (p, q, h, opt_eq_refl (some u)) refl

shared_identifiers-In :
    (c o : Candidate)
    → is_empty (shared_identifiers c o) ≡ false
    → (i : String) × In i c.development_identifiers × In i o.development_identifiers
unfolding shared_identifiers
shared_identifiers-In c o h =
    let (i, m) = not_empty-In (shared_identifiers c o) h in
    let (own, there) =
      In-select (λ x. any (λ j. x == j) o.development_identifiers) c.development_identifiers m in
    let (j, k, e) = any→in (λ j. i == j) o.development_identifiers there in
    (i, own, subst (λ x. In x o.development_identifiers) (sym ((eq_iff i j).0 e)) k)

In-shared_identifiers :
    (c o : Candidate) (i : String)
    → In i c.development_identifiers
    → In i o.development_identifiers
    → is_empty (shared_identifiers c o) ≡ false
unfolding shared_identifiers
In-shared_identifiers c o i m k = is_empty_of_In i (shared_identifiers c o) (
    select-In (λ x. any (λ j. x == j) o.development_identifiers) c.development_identifiers m
      (in→any (λ j. i == j) o.development_identifiers k ((eq_iff i i).1 refl)))

not-true : (b : Bool) → not b ≡ true → b ≡ false
not-true true h = cc
not-true false h = refl

is_contradiction : true ≡ false → ⊥
is_contradiction h = cc

module _ (list_text : List String → String) where
  reasons_with-is_empty :
      (c o : Candidate)
      → is_empty (reasons_with list_text c o) ≡ (
          not (c.source_identity == o.source_identity)
          && not (is_given c.normalized_url && opt_eq c.normalized_url o.normalized_url)
          && is_empty (shared_identifiers c o))
  unfolding reasons_with
  reasons_with-is_empty c o =
      rw
        (
          is_empty_append, is_empty_append, reason_if-is_empty, reason_if-is_empty,
          reason_if-is_empty,
        )
        (ground arith)

  IsDuplicate-reasons_with :
      (c o : Candidate) → IsDuplicate c o → is_empty (reasons_with list_text c o) ≡ false
  IsDuplicate-reasons_with c o (same_identity e) =
      rw (reasons_with-is_empty c o, (eq_iff c.source_identity o.source_identity).1 e) refl
  IsDuplicate-reasons_with c o (same_url u g p q) =
      rw (reasons_with-is_empty c o, given_opt c.normalized_url o.normalized_url u g p q)
        (ground arith)
  IsDuplicate-reasons_with c o (same_identifier i m k) =
      rw (reasons_with-is_empty c o, In-shared_identifiers c o i m k) (ground arith)

  reasons_with-IsDuplicate :
      (c o : Candidate) → is_empty (reasons_with list_text c o) ≡ false → IsDuplicate c o
  reasons_with-IsDuplicate c o h =
      let e = sym (reasons_with-is_empty c o) ∙ h in
      elim (Bool-cases (c.source_identity == o.source_identity)) [
        | inl i ↦ same_identity ((eq_iff c.source_identity o.source_identity).0 i)
        | inr i ↦
            elim (Bool-cases
              (is_given c.normalized_url && opt_eq c.normalized_url o.normalized_url)) [
                | inl u ↦
                    let (v, g, p, q) = opt_given c.normalized_url o.normalized_url u in
                    same_url v g p q
                | inr u ↦
                    let (j, m, k) = shared_identifiers-In c o (rw (i, u) at e) in
                    same_identifier j m k
              ]
      ]

  all_reasons-IsDuplicate :
      (c : Candidate) (os : List Candidate)
      → is_empty (all_reasons list_text c os) ≡ false
      → (o : Candidate) × In o os × IsDuplicate c o
  unfolding all_reasons
  all_reasons-IsDuplicate c [] h = cc
  all_reasons-IsDuplicate c (o ∷ os) h =
      let e = sym (is_empty_append (reasons_with list_text c o) (all_reasons list_text c os)) ∙ h in
      elim (Bool-cases (is_empty (reasons_with list_text c o))) [
        | inl i ↦ let (x, m, d) = all_reasons-IsDuplicate c os (rw i at e) in (x, inr m, d)
        | inr i ↦ (o, inl refl, reasons_with-IsDuplicate c o i)
      ]

  IsDuplicate-all_reasons :
      (c o : Candidate) (os : List Candidate)
      → In o os
      → IsDuplicate c o
      → is_empty (all_reasons list_text c os) ≡ false
  unfolding all_reasons
  IsDuplicate-all_reasons c o [] m d = absurd m
  IsDuplicate-all_reasons c o (p ∷ os) (inl e) d =
      is_empty_append (reasons_with list_text c p) (all_reasons list_text c os)
      ∙ rw (IsDuplicate-reasons_with c p (subst (IsDuplicate c) e d)) refl
  IsDuplicate-all_reasons c o (p ∷ os) (inr m) d =
      is_empty_append (reasons_with list_text c p) (all_reasons list_text c os)
      ∙ rw (IsDuplicate-all_reasons c o os m d) (ground arith)

  deduplicate_candidate-verdict :
      (db : Database) (candidate_id : String) (v : Verdict)
      → deduplicate_candidate list_text db candidate_id ≡ ok v
      → (c : Candidate) × (find_candidate db candidate_id ≡ some c)
        × (deduplicate list_text c (other_candidates db candidate_id) ≡ v)
  unfolding deduplicate_candidate
  deduplicate_candidate-verdict db candidate_id v h =
      let (c, e, k) = >>=-eq-ok (or_raise (find_candidate db candidate_id) _) _ h in
      (c, or_raise-some (find_candidate db candidate_id) _ c e, ok_injective _ _ k)

  all_reasons-HasDuplicate :
      (db : Database) (c : Candidate)
      → is_empty (all_reasons list_text c (other_candidates db c.candidate_id)) ≡ false
      → HasDuplicate db c
  unfolding other_candidates
  all_reasons-HasDuplicate db c h =
      let (o, m, d) = all_reasons-IsDuplicate c (other_candidates db c.candidate_id) h in
      let (there, other) =
        In-select (λ x. not (x.candidate_id == c.candidate_id)) db.candidates m in
      (o, there, not-true (o.candidate_id == c.candidate_id) other, d)

  HasDuplicate-all_reasons :
      (db : Database) (c : Candidate)
      → HasDuplicate db c
      → is_empty (all_reasons list_text c (other_candidates db c.candidate_id)) ≡ false
  unfolding other_candidates
  HasDuplicate-all_reasons db c (o, there, other, d) =
      IsDuplicate-all_reasons c o (other_candidates db c.candidate_id)
        (select-In (λ x. not (x.candidate_id == c.candidate_id)) db.candidates there (ap not other))
        d

  deduplicate-IsChecked :
      (db : Database) (c : Candidate)
      → IsChecked db c (deduplicate list_text c (other_candidates db c.candidate_id))
  unfolding deduplicate duplicate_reasons
  deduplicate-IsChecked db c =
      let reasons = all_reasons list_text c (other_candidates db c.candidate_id) in
      let same = sorted_set-is_empty reasons in
      elim (Bool-cases (is_empty reasons)) [
        | inl e ↦ inr (
          λ d. is_contradiction (sym e ∙ HasDuplicate-all_reasons db c d),
          rw (same, e) refl,
          rw (same, e) refl,
        )
        | inr e ↦ inl (all_reasons-HasDuplicate db c e, rw (same, e) refl, rw (same, e) refl)
      ]

  -- Where the check of a candidate ends, the candidate is in the table. It is to be SUPPRESSED where
  -- another candidate of the table has its source identity, its normalized URL, if it has one that
  -- is not empty, or one of its development identifiers; otherwise it is to be DUPLICATE_CHECKED.
  pub deduplicate_candidate-IsChecked :
      (db : Database) (candidate_id : String) (v : Verdict)
      → deduplicate_candidate list_text db candidate_id ≡ ok v
      → (c : Candidate) × (find_candidate db candidate_id ≡ some c) × IsChecked db c v
  deduplicate_candidate-IsChecked db candidate_id v h =
      let (c, e, k) = deduplicate_candidate-verdict db candidate_id v h in
      let named : c.candidate_id ≡ candidate_id =
        (eq_iff c.candidate_id candidate_id).0
          (find_first→in (λ x. x.candidate_id == candidate_id) db.candidates e).1 in
      (
        c,
        e,
        subst (IsChecked db c) (ap (λ z. deduplicate list_text c (other_candidates db z)) named ∙ k)
            (deduplicate-IsChecked db c),
      )
