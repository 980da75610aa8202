-- ===== src/Effects/Release.antt =====
-- The evidence of a release that an external effect needs (external_effects.py): the canonical
-- release event, its approval, its grant and the destination's binding.
use governed_signal_to_conte.Base.{
  Bool, List, Option, Result, String, [], effect_error, false, find_first, if◌then◌else◌, leb, ltb,
  none, not, ok, opt_eq, or_raise, raise_if, some, ℕ, ◌&&◌, ◌==◌, ◌>>=◌, ◌>>◌, ◌∷◌,
}
use governed_signal_to_conte.Chain.Events.{outcome_eq}
use governed_signal_to_conte.Chain.Material.{ChainEntry, StoredEvent}
use governed_signal_to_conte.Chain.Rows.{entry_of}
use governed_signal_to_conte.Commit.Authority.{scope_ids_eq}
use governed_signal_to_conte.Database.{Database}
use governed_signal_to_conte.Effects.Tables.{DestinationBinding, Ledger}
use governed_signal_to_conte.Json.{get_text}
use governed_signal_to_conte.Models.{capability_eq, packet_release}
use governed_signal_to_conte.Receipts.Events.{TransitionEvent}
use governed_signal_to_conte.Tables.{Approval, CapabilityGrant, Outcome, Packet}
use governed_signal_to_conte.Workflow.{approved, opt_state_eq, released}

-- A row of `transition_events AS e JOIN transition_event_chain_entries AS c`.
pub record ReleaseRow : Type 0 where
  pub event : TransitionEvent
  pub entry : ChainEntry

unfoldable pub is_release : String → TransitionEvent → Bool
unfolding opt_eq
is_release packet_id e =
    opt_eq e.packet_id (some packet_id)
    && e.command == "release"
    && outcome_eq e.outcome Outcome.accepted
    && opt_eq e.resulting_state (some "RELEASED")

abbrev pub later_release : ReleaseRow → Option ReleaseRow → ReleaseRow
later_release r none = r
later_release r (some s) = if ltb r.entry.event_sequence s.entry.event_sequence then s else r

-- `ORDER BY c.event_sequence DESC LIMIT 1`
unfoldable pub latest_release : List ChainEntry → String → List StoredEvent → Option ReleaseRow
unfolding is_release
latest_release entries packet_id [] = none
latest_release entries packet_id (v ∷ vs) =
    let rest = latest_release entries packet_id vs in
    if is_release packet_id v.event
    then (elim (entry_of entries v.event.event_id) [
      | none ↦ rest
      | some c ↦ some (later_release (record { event = v.event; entry = c }) rest)
    ])
    else rest

-- The release was allowed to an authenticated principal under a grant.
pub record ReleaseAuthority : Type 0 where
  pub grant_id : String
  pub principal_id : String

unfoldable pub release_authority : TransitionEvent → Result ReleaseAuthority
unfolding opt_eq
release_authority e = do
  let lacking = effect_error "Release event lacks exact authenticated release authority"
  raise_if
      (not (
        opt_eq e.authorization.status (some "allowed")
        && opt_eq e.authorization.required_capability (some "packet.release")))
      lacking
  grant_id ← or_raise e.authorization.matching_grant_id lacking
  principal_id ← or_raise e.authentication.principal_id lacking
  ok (record { grant_id = grant_id; principal_id = principal_id })

abbrev pub is_release_approval : String → Option String → Option String → Approval → Bool
is_release_approval packet_id approval_id approval_event_id a =
    opt_eq (some a.approval_id) approval_id
    && a.packet_id == packet_id
    && a.decision == "APPROVED"
    && opt_eq (some a.transition_event_id) approval_event_id

-- A revocation that is not in the chain does not count; one in it must come after the release.
unfoldable pub revoked_before : Database → String → ℕ → Bool
revoked_before db grant_id release_sequence =
    elim (find_first (λ v. v.grant_id == grant_id) db.capability_revocations) [
      | none ↦ false
      | some v ↦ elim (entry_of db.store.entries v.policy_event_id) [
        | none ↦ false
        | some c ↦ leb c.event_sequence release_sequence
      ]
    ]

-- The grant as it was at the release.
unfoldable pub grants_release :
    Database → Packet → ReleaseAuthority → ℕ → CapabilityGrant → ChainEntry → Bool
unfolding opt_eq opt_state_eq capability_eq scope_ids_eq revoked_before
grants_release db p authority release_sequence g c =
    g.subject_principal_id == authority.principal_id
    && capability_eq g.capability packet_release
    && opt_state_eq g.expected_prior_state (some approved)
    && opt_state_eq g.requested_state (some released)
    && opt_eq g.scope_version p.scope_version
    && scope_ids_eq g.scope p.scope
    && ltb c.event_sequence release_sequence
    && not (revoked_before db g.grant_id release_sequence)

unfoldable pub check_release_grant :
    Database → Packet → ReleaseAuthority → ℕ → Result CapabilityGrant
unfolding grants_release
check_release_grant db p authority release_sequence = do
  let inconsistent = effect_error "Release grant evidence is inconsistent"
  g ←
      or_raise (find_first (λ h. h.grant_id == authority.grant_id) db.capability_grants)
        inconsistent
  c ← or_raise (entry_of db.store.entries g.policy_event_id) inconsistent
  raise_if (not (grants_release db p authority release_sequence g c)) inconsistent
  ok g

-- `WHERE scope_version = ? AND brand_id = ? AND channel_id = ? AND destination_id = ?`
abbrev pub binds_scope : Packet → DestinationBinding → Bool
binds_scope p b =
    opt_eq (some b.scope.scope_version) p.scope_version
    && opt_eq (some b.scope.brand_id) p.scope.brand_id
    && opt_eq (some b.scope.channel_id) p.scope.channel_id
    && opt_eq (some b.scope.destination_id) p.scope.destination_id

-- All of it, in the order of the source.
pub record ReleaseEvidence : Type 0 where
  pub row : ReleaseRow
  pub authority : ReleaseAuthority
  pub approval : Approval
  pub grant : CapabilityGrant
  pub binding : DestinationBinding

unfoldable pub release_evidence : Ledger → Packet → Result ReleaseEvidence
unfolding latest_release release_authority check_release_grant opt_eq get_text
release_evidence l p = do
  let db = l.database
  row ←
      or_raise (latest_release db.store.entries p.packet_id db.store.events)
        (effect_error "RELEASED packet lacks its accepted canonical release event")
  authority ← release_authority row.event
  approval ←
      or_raise
        (find_first
          (is_release_approval p.packet_id (get_text "approval_id" row.event.input_identifiers_json)
            (get_text "approval_transition_event_id" row.event.input_identifiers_json))
          db.approvals)
        (effect_error "Release approval evidence is missing")
  grant ← check_release_grant db p authority row.entry.event_sequence
  binding ←
      or_raise (find_first (binds_scope p) l.bindings)
        (effect_error "No immutable external destination binding exists for the packet scope")
  ok (record {
    row = row;
    authority = authority;
    approval = approval;
    grant = grant;
    binding = binding;
  })
