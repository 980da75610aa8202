-- ===== src/Duplicates.antt =====
-- The duplicate check of a candidate (deduplication.py, and the reads of database.py). The text of a
-- list of identifiers in a reason, which Python formats, is a parameter; the transition that
-- follows the check is left out.
use governed_signal_to_conte.Base.{
  Bool, List, Option, Result, String, [], any, codes, false, if◌then◌else◌, is_empty, key_error,
  none, not, ok, opt_eq, or_raise, select, some, text_append, true, ◌&&◌, ◌++◌, ◌==◌, ◌>>=◌, ◌>>◌,
  ◌∷◌,
}
use governed_signal_to_conte.Chain.Rows.{codes_leb}
use governed_signal_to_conte.Commit.Progress.{find_candidate}
use governed_signal_to_conte.Database.{Database}
use governed_signal_to_conte.Tables.{Candidate}
use governed_signal_to_conte.Workflow.{WorkflowState, duplicate_checked, suppressed}
pub mod Matching

abbrev pub text_leb : String → String → Bool
text_leb a b = codes_leb (codes a) (codes b)

-- Adds a text to a sorted list without repetition.
unfoldable pub insert_text : String → List String → List String
insert_text a [] = a ∷ []
insert_text a (b ∷ bs) =
    let rest = insert_text a bs in
    if a == b then b ∷ bs else if text_leb a b then a ∷ b ∷ bs else b ∷ rest

-- `sorted(set(texts))`
unfoldable pub sorted_set : List String → List String
unfolding insert_text
sorted_set [] = []
sorted_set (a ∷ rest) = insert_text a (sorted_set rest)

abbrev pub is_given : Option String → Bool
is_given none = false
is_given (some u) = not (u == "")

unfoldable pub other_candidates : Database → String → List Candidate
other_candidates db candidate_id = select (λ c. not (c.candidate_id == candidate_id)) db.candidates

-- The identifiers of a candidate that another one has too.
unfoldable pub shared_identifiers : Candidate → Candidate → List String
shared_identifiers candidate other =
    select (λ i. any (λ j. i == j) other.development_identifiers) candidate.development_identifiers

-- `if c: reasons.append(reason)`
abbrev pub reason_if : Bool → String → List String
reason_if true reason = reason ∷ []
reason_if false reason = []

abbrev pub join_texts : String → List String → String
join_texts separator [] = ""
join_texts separator (a ∷ []) = a
join_texts separator (a ∷ b ∷ rest) =
    text_append a (text_append separator (join_texts separator (b ∷ rest)))

-- The state that is asked for, whether the candidate is a duplicate, and the reason.
pub record Verdict : Type 0 where
  pub target : WorkflowState
  pub duplicate : Bool
  pub reason : String

module _ (list_text : List String → String) where
  -- One turn of the loop over the other candidates.
  unfoldable pub reasons_with : Candidate → Candidate → List String
  unfolding opt_eq sorted_set shared_identifiers
  reasons_with candidate other =
      let shared = shared_identifiers candidate other in
      reason_if (candidate.source_identity == other.source_identity)
        (text_append "source identity matches " other.candidate_id)
      ++ reason_if
          (is_given candidate.normalized_url
            && opt_eq candidate.normalized_url other.normalized_url)
          (text_append "normalized URL matches " other.candidate_id)
      ++ reason_if (not (is_empty shared)) (
          text_append "development identifiers " (
            text_append (list_text (sorted_set shared)) (text_append " match " other.candidate_id)))

  unfoldable pub all_reasons : Candidate → List Candidate → List String
  unfolding reasons_with
  all_reasons candidate [] = []
  all_reasons candidate (other ∷ others) =
      reasons_with candidate other ++ all_reasons candidate others

  unfoldable pub duplicate_reasons : Candidate → List Candidate → List String
  unfolding all_reasons sorted_set
  duplicate_reasons candidate others = sorted_set (all_reasons candidate others)

  -- The choice of the state and its reason.
  unfoldable pub deduplicate : Candidate → List Candidate → Verdict
  unfolding duplicate_reasons
  deduplicate candidate others =
      let reasons = duplicate_reasons candidate others in
      if is_empty reasons
      then record {
        target = duplicate_checked;
        duplicate = false;
        reason = "No matching source identity, URL, or development identifier.";
      }
      else record { target = suppressed; duplicate = true; reason = join_texts "; " reasons }

  -- `deduplicate_candidate`, up to its transition
  unfoldable pub deduplicate_candidate : Database → String → Result Verdict
  unfolding other_candidates deduplicate
  deduplicate_candidate db candidate_id = do
    candidate ← or_raise (find_candidate db candidate_id) (key_error "Unknown candidate")
    ok (deduplicate candidate (other_candidates db candidate_id))
