-- ===== src/Workflow.antt =====
-- The workflow states (models.py), the map of their transitions (state_machine.py) and the pairs
-- that only the mediator may commit (database.py).
use governed_signal_to_conte.Base.{
  Bool, List, Option, Result, String, [], any, ap, arith, err, false, if◌then◌else◌, nat_eq, none,
  ok, refl, some, true, value_error, ℕ, ◌&&◌, ◌∷◌, ◌≡◌,
}
pub mod Reach

pub data WorkflowState : Type 0 where
  discovered evidence_preserved normalized duplicate_checked qualified packet_generated
        awaiting_approval approved released suppressed rejected failed :
      WorkflowState

-- The members in declaration order, to compare them by `is`.
abbrev pub ordinal : WorkflowState → ℕ
ordinal discovered = 0
ordinal evidence_preserved = 1
ordinal normalized = 2
ordinal duplicate_checked = 3
ordinal qualified = 4
ordinal packet_generated = 5
ordinal awaiting_approval = 6
ordinal approved = 7
ordinal released = 8
ordinal suppressed = 9
ordinal rejected = 10
ordinal failed = 11

unfoldable pub state_eq : WorkflowState → WorkflowState → Bool
state_eq a b = nat_eq (ordinal a) (ordinal b)

pub state_eq→eq : (a b : WorkflowState) → state_eq a b ≡ true → a ≡ b
unfolding state_eq
state_eq→eq a b h = ground arith

pub state_eq_refl : (a : WorkflowState) → state_eq a a ≡ true
unfolding state_eq
state_eq_refl a = ground arith

-- A nullable state column.
unfoldable pub opt_state_eq : Option WorkflowState → Option WorkflowState → Bool
opt_state_eq none none = true
opt_state_eq none (some b) = false
opt_state_eq (some a) none = false
opt_state_eq (some a) (some b) = state_eq a b

pub opt_state_eq→eq : (a b : Option WorkflowState) → opt_state_eq a b ≡ true → a ≡ b
unfolding opt_state_eq
opt_state_eq→eq none none h = refl
opt_state_eq→eq none (some b) h = cc
opt_state_eq→eq (some a) none h = cc
opt_state_eq→eq (some a) (some b) h = ap some (state_eq→eq a b h)

pub opt_state_eq_refl : (a : Option WorkflowState) → opt_state_eq a a ≡ true
unfolding opt_state_eq
opt_state_eq_refl none = refl
opt_state_eq_refl (some a) = state_eq_refl a

-- `WorkflowState.value`
unfoldable pub state_value : WorkflowState → String
state_value discovered = "DISCOVERED"
state_value evidence_preserved = "EVIDENCE_PRESERVED"
state_value normalized = "NORMALIZED"
state_value duplicate_checked = "DUPLICATE_CHECKED"
state_value qualified = "QUALIFIED"
state_value packet_generated = "PACKET_GENERATED"
state_value awaiting_approval = "AWAITING_APPROVAL"
state_value approved = "APPROVED"
state_value released = "RELEASED"
state_value suppressed = "SUPPRESSED"
state_value rejected = "REJECTED"
state_value failed = "FAILED"

unfoldable pub transitions : WorkflowState → List WorkflowState
transitions discovered = evidence_preserved ∷ failed ∷ []
transitions evidence_preserved = normalized ∷ failed ∷ []
transitions normalized = duplicate_checked ∷ suppressed ∷ failed ∷ []
transitions duplicate_checked = qualified ∷ suppressed ∷ failed ∷ []
transitions qualified = packet_generated ∷ failed ∷ []
transitions packet_generated = awaiting_approval ∷ failed ∷ []
transitions awaiting_approval = approved ∷ rejected ∷ failed ∷ []
transitions approved = released ∷ failed ∷ []
transitions released = []
transitions suppressed = []
transitions rejected = []
transitions failed = []

-- `requested in TRANSITIONS[prior]`
unfoldable pub permits : WorkflowState → WorkflowState → Bool
unfolding transitions state_eq
permits prior requested = any (state_eq requested) (transitions prior)

unfoldable pub validate_transition : WorkflowState → WorkflowState → Result (Unit {0})
unfolding permits
validate_transition prior requested =
    if permits prior requested then ok tt else err (value_error "Invalid transition")

-- `AUTHORITY_SENSITIVE_STATE_PAIRS`
abbrev pub authority_sensitive_state_pairs : List (WorkflowState × WorkflowState)
authority_sensitive_state_pairs =
    (awaiting_approval, approved) ∷ (awaiting_approval, rejected) ∷ (approved, released) ∷ []

unfoldable pub is_authority_sensitive : WorkflowState → WorkflowState → Bool
unfolding state_eq
is_authority_sensitive prior requested =
    any (λ pair. state_eq prior pair.0 && state_eq requested pair.1) authority_sensitive_state_pairs
