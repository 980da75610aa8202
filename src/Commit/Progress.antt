-- ===== src/Commit/Progress.antt =====
-- The transactions of database.py that no authority is needed for: a recorded rejection, a
-- candidate's transition with or without its packet, and a packet's progression.
use governed_signal_to_conte.Base.{
  Bool, Option, Result, String, [], any, count_where, find_first, integrity_error, key_error,
  nat_eq, none, not, ok, or_raise, permission_error, raise_if, runtime_error, some, update_where, ℕ,
  ◌&&◌, ◌++◌, ◌==◌, ◌>>=◌, ◌>>◌, ◌||◌, ◌∷◌,
}
use governed_signal_to_conte.Chain.Material.{Material}
use governed_signal_to_conte.Commit.Insert.{
  append_event, insert_authenticated_operation, whole_scope,
}
use governed_signal_to_conte.Database.{Database, Transaction}
use governed_signal_to_conte.Models.{all_given, any_given}
use governed_signal_to_conte.Receipts.{TransitionEvent}
use governed_signal_to_conte.Tables.{AuthenticatedOperation, Candidate, Packet}
use governed_signal_to_conte.Workflow.{WorkflowState, is_authority_sensitive, state_eq}

abbrev pub candidate_at : String → WorkflowState → Candidate → Bool
candidate_at candidate_id state c = c.candidate_id == candidate_id && state_eq c.state state

abbrev pub packet_at : String → WorkflowState → Packet → Bool
packet_at packet_id state p = p.packet_id == packet_id && state_eq p.state state

abbrev pub find_candidate : Database → String → Option Candidate
find_candidate db candidate_id = find_first (λ c. c.candidate_id == candidate_id) db.candidates

abbrev pub find_packet : Database → String → Option Packet
find_packet db packet_id = find_first (λ p. p.packet_id == packet_id) db.packets

-- `UPDATE candidates SET state = ? WHERE candidate_id = ? AND state = ?`, with its row count.
unfoldable pub move_candidate : String → WorkflowState → WorkflowState → Database → ℕ × Database
unfolding state_eq
move_candidate candidate_id prior resulting db = (
  count_where (candidate_at candidate_id prior) db.candidates,
  record db {
    candidates =
        update_where (candidate_at candidate_id prior) (λ c. record c { state = resulting })
          db.candidates;
  },
)

-- `UPDATE packets SET state = ? WHERE packet_id = ? AND state = ?`, with its row count.
unfoldable pub move_packet : String → WorkflowState → WorkflowState → Database → ℕ × Database
unfolding state_eq
move_packet packet_id prior resulting db = (
  count_where (packet_at packet_id prior) db.packets,
  record db {
    packets =
        update_where (packet_at packet_id prior) (λ p. record p { state = resulting }) db.packets;
  },
)

unfoldable pub insert_packet : Packet → Database → Result Database
unfolding any_given all_given
insert_packet p db = do
  raise_if (any (λ q. q.packet_id == p.packet_id) db.packets)
      (integrity_error "UNIQUE constraint failed: packets.packet_id")
  raise_if (not (whole_scope p.scope_version p.scope))
      (integrity_error "CHECK constraint failed: packets")
  raise_if (not (any (λ c. c.candidate_id == p.candidate_id) db.candidates))
      (integrity_error "FOREIGN KEY constraint failed")
  ok (record db { packets = db.packets ++ p ∷ [] })

-- An optional part of a transaction: `if value is not None: …`.
abbrev pub when_some :
    {A : Type 0} → Option A → (A → Database → Result Database) → Database → Result Database
when_some none f db = ok db
when_some (some a) f db = f a db

-- The fields that `_commit_packet_transition` is called with, beside the event.
pub record PacketTransition : Type 0 where
  pub packet_id : String
  pub candidate_id : String
  pub prior_state : WorkflowState
  pub resulting_state : WorkflowState
  pub event : TransitionEvent

pub record CandidateTransition : Type 0 where
  pub candidate_id : String
  pub prior_state : WorkflowState
  pub resulting_state : WorkflowState
  pub event : TransitionEvent
  pub packet : Option Packet

-- Packet and candidate of a transition move together, or an exception is raised.
unfoldable pub move_pair :
    String → String → WorkflowState → WorkflowState → Database → Result Database
move_pair packet_id candidate_id prior resulting db = do
  let (packets_moved, db₁) = move_packet packet_id prior resulting db
  let (candidates_moved, db₂) = move_candidate candidate_id prior resulting db₁
  raise_if (not (nat_eq packets_moved 1) || not (nat_eq candidates_moved 1))
      (runtime_error "Packet/candidate paired state changed before transition commit")
  ok db₂

module _ (canonical_json_hash : Material → String) where
  unfoldable pub record_transition_event :
      TransitionEvent → Option AuthenticatedOperation → Transaction (Unit {0})
  record_transition_event event operation db = do
    db₁ ← append_event canonical_json_hash event db
    db₂ ←
        when_some operation (λ o. insert_authenticated_operation o event.event_id event.outcome) db₁
    ok (tt, db₂)

  -- `apply_candidate_transition`
  unfoldable pub apply_candidate_transition : CandidateTransition → Transaction (Unit {0})
  apply_candidate_transition t db = do
    raise_if (is_authority_sensitive t.prior_state t.resulting_state) (
        permission_error "Authority-sensitive candidate transitions require the TransitionMediator")
    db₁ ← when_some t.packet insert_packet db
    let (moved, db₂) = move_candidate t.candidate_id t.prior_state t.resulting_state db₁
    raise_if (not (nat_eq moved 1))
        (runtime_error "Candidate state changed before transition commit")
    db₃ ← append_event canonical_json_hash t.event db₂
    ok (tt, db₃)

  -- `_commit_packet_transition`, as its one caller uses it: with no approval, no authenticated
  -- operation and no required bindings.
  unfoldable pub commit_packet_transition : PacketTransition → Transaction (Unit {0})
  commit_packet_transition t db = do
    let gone = key_error "Packet or candidate disappeared during transition"
    packet ← or_raise (find_packet db t.packet_id) gone
    candidate ← or_raise (find_candidate db t.candidate_id) gone
    raise_if (not (packet.candidate_id == t.candidate_id))
        (runtime_error "Packet/candidate identity changed before transition commit")
    raise_if
        (not (state_eq packet.state t.prior_state) || not (state_eq candidate.state t.prior_state))
        (runtime_error "Packet/candidate paired state changed before transition commit")
    db₁ ← move_pair t.packet_id t.candidate_id t.prior_state t.resulting_state db
    db₂ ← append_event canonical_json_hash t.event db₁
    ok (tt, db₂)

  unfoldable pub apply_packet_transition : PacketTransition → Transaction (Unit {0})
  apply_packet_transition t db = do
    raise_if (is_authority_sensitive t.prior_state t.resulting_state)
        (permission_error "Authority-sensitive packet transitions require the TransitionMediator")
    commit_packet_transition t db
