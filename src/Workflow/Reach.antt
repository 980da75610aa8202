-- ===== src/Workflow/Reach.antt =====
-- What every run along the map of transitions (state_machine.py) has in common.
use governed_signal_to_conte.Base.{
  ℕ, ◌+◌, ◌≤◌, ◌<◌, Bool, true, false, ◌≡◌, refl, arith, ok, List, [], ◌∷◌, length,
}
use governed_signal_to_conte.Workflow.{
  WorkflowState, discovered, evidence_preserved, normalized, duplicate_checked, qualified,
  packet_generated, awaiting_approval, approved, released, suppressed, rejected, failed,
  validate_transition,
}

-- Steps that `validate_transition` lets through, with the states passed.
pub data Run : WorkflowState → List WorkflowState → WorkflowState → Type 0 where
  here : {s : WorkflowState} → Run s [] s
  step :
      {s t u : WorkflowState} {path : List WorkflowState}
      → validate_transition s t ≡ ok tt
      → Run t path u
      → Run s (t ∷ path) u

-- How many steps a state can still make.
abbrev pub remaining : WorkflowState → ℕ
remaining discovered = 8
remaining evidence_preserved = 7
remaining normalized = 6
remaining duplicate_checked = 5
remaining qualified = 4
remaining packet_generated = 3
remaining awaiting_approval = 2
remaining approved = 1
remaining _ = 0

remaining-step : (s t : WorkflowState) → validate_transition s t ≡ ok tt → remaining t < remaining s
unfolding validate_transition
remaining-step s t h = ground arith

-- Every run of permitted transitions is at most as long as its first state allows, so no workflow
-- makes more than eight transitions.
pub Run-bounded :
    {s u : WorkflowState} {path : List WorkflowState}
    → Run s path u
    → length path + remaining u ≤ remaining s
Run-bounded here = omega arith
Run-bounded (step {s} {t} h r) = omega (arith, remaining-step s t h, Run-bounded r)

-- The states from which a release can still be reached, and the way there.
abbrev can_release : WorkflowState → Bool
can_release suppressed = false
can_release rejected = false
can_release failed = false
can_release _ = true

-- The states between one state and RELEASED on the main path of the README.
abbrev pub main_path : WorkflowState → List WorkflowState
main_path discovered =
    evidence_preserved ∷ normalized ∷ duplicate_checked ∷ qualified ∷ packet_generated
    ∷ awaiting_approval ∷ approved ∷ released ∷ []
main_path evidence_preserved =
    normalized ∷ duplicate_checked ∷ qualified ∷ packet_generated ∷ awaiting_approval ∷ approved
    ∷ released ∷ []
main_path normalized =
    duplicate_checked ∷ qualified ∷ packet_generated ∷ awaiting_approval ∷ approved ∷ released ∷ []
main_path duplicate_checked =
    qualified ∷ packet_generated ∷ awaiting_approval ∷ approved ∷ released ∷ []
main_path qualified = packet_generated ∷ awaiting_approval ∷ approved ∷ released ∷ []
main_path packet_generated = awaiting_approval ∷ approved ∷ released ∷ []
main_path awaiting_approval = approved ∷ released ∷ []
main_path approved = released ∷ []
main_path _ = []

main_path-step :
    (s t : WorkflowState)
    → validate_transition s t ≡ ok tt
    → can_release t ≡ true
    → (can_release s ≡ true) × (main_path s ≡ t ∷ main_path t)
unfolding validate_transition
main_path-step s t h c = ground arith

Run-main_path :
    {s u : WorkflowState} {path : List WorkflowState}
    → Run s path u
    → u ≡ released
    → (can_release s ≡ true) × (path ≡ main_path s)
Run-main_path here e = ground arith
Run-main_path (step {s} {t} h r) e =
    let (c, p) = Run-main_path r e in let (c', p') = main_path-step s t h c in (c', ground arith)

-- A run that ends in RELEASED has passed every state of the main path after its first one, in
-- their order, and no other state: no gate is skipped.
pub released-main_path :
    {s : WorkflowState} {path : List WorkflowState} → Run s path released → path ≡ main_path s
released-main_path r = (Run-main_path r refl).1
