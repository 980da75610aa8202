-- ===== src/DuplicateExamples.antt =====
-- The duplicate check on two candidates with the same source identity.
use governed_signal_to_conte.Base.{List, String, [], ok, refl, some, ◌∷◌, ◌≡◌}
use governed_signal_to_conte.Commit.Progress.{find_candidate}
use governed_signal_to_conte.Database.{Database}
use governed_signal_to_conte.Duplicates.{
  Verdict, deduplicate, deduplicate_candidate, duplicate_reasons, join_texts, other_candidates,
}
use governed_signal_to_conte.Duplicates.Matching.{IsChecked, deduplicate_candidate-IsChecked}
use governed_signal_to_conte.Scenario.{empty_database, signal}
use governed_signal_to_conte.Tables.{Candidate}
use governed_signal_to_conte.Workflow.{suppressed}

abbrev twin : Candidate
twin = record signal { candidate_id = "candidate-2" }

abbrev twins : Database
twins = record empty_database { candidates = signal ∷ twin ∷ [] }

abbrev listed : List String → String
listed texts = join_texts ", " texts

checked_twin : (v : Verdict) × (deduplicate_candidate listed twins "candidate-2" ≡ ok v)
unfolding deduplicate_candidate
checked_twin = (deduplicate listed twin (other_candidates twins "candidate-2"), refl)

checked_twin_suppressed : checked_twin.0.target ≡ suppressed
unfolding checked_twin deduplicate duplicate_reasons
checked_twin_suppressed = refl

deduplicate_candidate-IsChecked_example :
    (c : Candidate) × (find_candidate twins "candidate-2" ≡ some c)
    × IsChecked twins c checked_twin.0
deduplicate_candidate-IsChecked_example =
    deduplicate_candidate-IsChecked listed twins "candidate-2" checked_twin.0 checked_twin.1
