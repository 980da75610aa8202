-- ===== src/Effects/Evidence.antt =====
-- What the evidence of a release is (external_effects.py): the rows that it names, and what each of
-- them says.
use governed_signal_to_conte.Base.{In, String, find_first, some, ◌<◌, ◌==◌, ◌≡◌, ◌≤◌}
use governed_signal_to_conte.Chain.Material.{ChainEntry, StoredEvent}
use governed_signal_to_conte.Chain.Rows.{entry_of}
use governed_signal_to_conte.Database.{Database}
use governed_signal_to_conte.Effects.Release.{ReleaseAuthority, ReleaseEvidence, ReleaseRow}
use governed_signal_to_conte.Effects.Tables.{DestinationBinding, Ledger}
use governed_signal_to_conte.Json.{get_text}
use governed_signal_to_conte.Models.{packet_release}
use governed_signal_to_conte.Receipts.Events.{TransitionEvent}
use governed_signal_to_conte.Tables.{
  Approval, CapabilityGrant, CapabilityRevocation, Outcome, Packet,
}
use governed_signal_to_conte.Workflow.{approved, released}

-- A stored event is a release of the packet: an accepted one, in the chain under this entry.
pub record IsReleaseOf (db : Database) (packet_id : String) (r : ReleaseRow) : Type 0 where
  pub stored : StoredEvent
  pub in_events : In stored db.store.events
  pub is_event : stored.event ≡ r.event
  pub chained : entry_of db.store.entries r.event.event_id ≡ some r.entry
  pub of_packet : r.event.packet_id ≡ some packet_id
  pub by_command : r.event.command ≡ "release"
  pub was_accepted : r.event.outcome ≡ Outcome.accepted
  pub to_released : r.event.resulting_state ≡ some "RELEASED"

-- The release was allowed, as a release, to an authenticated principal under a grant.
pub record HasAuthority (e : TransitionEvent) (a : ReleaseAuthority) : Type 0 where
  pub allowed : e.authorization.status ≡ some "allowed"
  pub capability : e.authorization.required_capability ≡ some "packet.release"
  pub grant : e.authorization.matching_grant_id ≡ some a.grant_id
  pub principal : e.authentication.principal_id ≡ some a.principal_id

-- The approval of the packet that the release names.
pub record IsApprovalOf (db : Database) (packet_id : String) (e : TransitionEvent) (a : Approval)
    : Type 0 where
  pub in_approvals : In a db.approvals
  pub of_packet : a.packet_id ≡ packet_id
  pub is_approved : a.decision ≡ "APPROVED"
  pub named : get_text "approval_id" e.input_identifiers_json ≡ some a.approval_id
  pub event_named :
      get_text "approval_transition_event_id" e.input_identifiers_json ≡ some a.transition_event_id

-- The grant covered this release: it is one for the principal, the step and the packet's scope, in
-- the chain before the release, and its revocation, if one is in the chain, came after it.
pub record CoversRelease (db : Database) (p : Packet) (a : ReleaseAuthority) (r : ReleaseRow)
    (g : CapabilityGrant) : Type 0 where
  pub in_grants : In g db.capability_grants
  pub named : g.grant_id ≡ a.grant_id
  pub for_principal : g.subject_principal_id ≡ a.principal_id
  pub for_release : g.capability ≡ packet_release
  pub from_approved : g.expected_prior_state ≡ some approved
  pub to_released : g.requested_state ≡ some released
  pub same_version : g.scope_version ≡ p.scope_version
  pub same_brand : g.scope.brand_id ≡ p.scope.brand_id
  pub same_channel : g.scope.channel_id ≡ p.scope.channel_id
  pub same_destination : g.scope.destination_id ≡ p.scope.destination_id
  pub entry : ChainEntry
  pub chained : entry_of db.store.entries g.policy_event_id ≡ some entry
  pub before_release : entry.event_sequence < r.entry.event_sequence
  pub not_revoked_before :
      (v : CapabilityRevocation) (c : ChainEntry)
      → find_first (λ x. x.grant_id == g.grant_id) db.capability_revocations ≡ some v
      → entry_of db.store.entries v.policy_event_id ≡ some c
      → r.entry.event_sequence < c.event_sequence

-- The binding of the packet's own destination.
pub record Binds (l : Ledger) (p : Packet) (b : DestinationBinding) : Type 0 where
  pub in_bindings : In b l.bindings
  pub same_version : p.scope_version ≡ some b.scope.scope_version
  pub same_brand : p.scope.brand_id ≡ some b.scope.brand_id
  pub same_channel : p.scope.channel_id ≡ some b.scope.channel_id
  pub same_destination : p.scope.destination_id ≡ some b.scope.destination_id

pub record IsEvidence (l : Ledger) (p : Packet) (e : ReleaseEvidence) : Type 0 where
  pub release : IsReleaseOf l.database p.packet_id e.row
  pub latest :
      (r : ReleaseRow)
      → IsReleaseOf l.database p.packet_id r
      → r.entry.event_sequence ≤ e.row.entry.event_sequence
  pub authority : HasAuthority e.row.event e.authority
  pub approval : IsApprovalOf l.database p.packet_id e.row.event e.approval
  pub grant : CoversRelease l.database p e.authority e.row e.grant
  pub binding : Binds l p e.binding
