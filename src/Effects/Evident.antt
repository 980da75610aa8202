-- ===== src/Effects/Evident.antt =====
-- `release_evidence` (external_effects.py) gives the evidence of a release, or raises.
use governed_signal_to_conte.Base.{
  &&→left, &&→right, >>=-eq-ok, String, ap, arith, eq_iff, false, find_first, find_first→in, leb,
  not, not-false, ok, ok_injective, opt_eq, opt_eq_refl, opt_eq→eq, or_raise, or_raise-some,
  raise_if, raise_if-false, refl, some, some_injective, subst, sym, true, ℕ, ◌&&◌, ◌<◌, ◌==◌, ◌∙◌,
  ◌≡◌, ◌≤◌,
}
use governed_signal_to_conte.Chain.Events.{outcome_eq}
use governed_signal_to_conte.Chain.Material.{ChainEntry}
use governed_signal_to_conte.Chain.Rows.{entry_of}
use governed_signal_to_conte.Commit.Authority.{scope_ids_eq}
use governed_signal_to_conte.Database.{Database}
use governed_signal_to_conte.Effects.Evidence.{
  Binds, CoversRelease, HasAuthority, IsApprovalOf, IsEvidence, IsReleaseOf,
}
use governed_signal_to_conte.Effects.Release.{
  ReleaseAuthority, ReleaseEvidence, ReleaseRow, binds_scope, check_release_grant, grants_release,
  is_release, is_release_approval, latest_release, release_authority, release_evidence,
  revoked_before,
}
use governed_signal_to_conte.Effects.Released.{IsRow, latest_release-IsRow, latest_release-above}
use governed_signal_to_conte.Effects.Tables.{DestinationBinding, Ledger}
use governed_signal_to_conte.Json.{get_text}
use governed_signal_to_conte.Models.{capability_eq→eq, packet_release}
use governed_signal_to_conte.Receipts.Events.{TransitionEvent}
use governed_signal_to_conte.Tables.{
  Approval, CapabilityGrant, CapabilityRevocation, Outcome, Packet,
}
use governed_signal_to_conte.Workflow.{approved, opt_state_eq→eq, released}

abbrev authority_of : String → String → ReleaseAuthority
authority_of grant_id principal_id = record { grant_id = grant_id; principal_id = principal_id }

abbrev evidence_of :
    ReleaseRow
    → ReleaseAuthority
    → Approval
    → CapabilityGrant
    → DestinationBinding
    → ReleaseEvidence
evidence_of row authority approval g binding = record {
  row = row;
  authority = authority;
  approval = approval;
  grant = g;
  binding = binding;
}

outcome_eq→eq : (a b : Outcome) → outcome_eq a b ≡ true → a ≡ b
outcome_eq→eq Outcome.accepted Outcome.accepted h = refl
outcome_eq→eq Outcome.accepted Outcome.rejected h = cc
outcome_eq→eq Outcome.rejected Outcome.accepted h = cc
outcome_eq→eq Outcome.rejected Outcome.rejected h = refl

IsRow-IsReleaseOf :
    (db : Database) (packet_id : String) (r : ReleaseRow)
    → IsRow db.store.entries packet_id db.store.events r
    → IsReleaseOf db packet_id r
unfolding is_release
IsRow-IsReleaseOf db packet_id r i =
    let h = i.releases in
    record {
      stored = i.stored;
      in_events = i.in_events;
      is_event = i.is_event;
      chained = i.chained;
      of_packet = opt_eq→eq r.event.packet_id (some packet_id) (ground (arith, h));
      by_command = (eq_iff r.event.command "release").0 (ground (arith, h));
      was_accepted = outcome_eq→eq r.event.outcome Outcome.accepted (ground (arith, h));
      to_released = opt_eq→eq r.event.resulting_state (some "RELEASED") (ground (arith, h));
    }

IsReleaseOf-is_release :
    (db : Database) (packet_id : String) (r : ReleaseRow)
    → IsReleaseOf db packet_id r
    → is_release packet_id r.event ≡ true
unfolding is_release
IsReleaseOf-is_release db packet_id r i =
    rw
      (
        i.of_packet,
        i.to_released,
        i.was_accepted,
        (eq_iff r.event.command "release").1 i.by_command,
        opt_eq_refl (some packet_id),
      )
      refl

release_authority-HasAuthority :
    (e : TransitionEvent) (a : ReleaseAuthority) → release_authority e ≡ ok a → HasAuthority e a
unfolding release_authority
release_authority-HasAuthority e a h =
    let status = opt_eq e.authorization.status (some "allowed") in
    let capability = opt_eq e.authorization.required_capability (some "packet.release") in
    let (u, e₁, h₁) = >>=-eq-ok (raise_if (not (status && capability)) _) _ h in
    let (grant_id, e₂, h₂) = >>=-eq-ok (or_raise e.authorization.matching_grant_id _) _ h₁ in
    let (principal_id, e₃, h₃) = >>=-eq-ok (or_raise e.authentication.principal_id _) _ h₂ in
    let both = not-false (status && capability) (raise_if-false _ _ u e₁) in
    let made = ok_injective (authority_of grant_id principal_id) a h₃ in
    record {
      allowed = opt_eq→eq _ _ (&&→left status capability both);
      capability = opt_eq→eq _ _ (&&→right status capability both);
      grant = or_raise-some _ _ grant_id e₂ ∙ ap (λ z. some z.grant_id) made;
      principal = or_raise-some _ _ principal_id e₃ ∙ ap (λ z. some z.principal_id) made;
    }

find_approval-IsApprovalOf :
    (db : Database) (packet_id : String) (e : TransitionEvent) (a : Approval)
    → find_first
        (is_release_approval packet_id
          (get_text "approval_id" e.input_identifiers_json)
          (get_text "approval_transition_event_id" e.input_identifiers_json))
        db.approvals
      ≡ some a
    → IsApprovalOf db packet_id e a
find_approval-IsApprovalOf db packet_id e a h =
    let (m, q) =
      find_first→in
        (is_release_approval packet_id (get_text "approval_id" e.input_identifiers_json)
          (get_text "approval_transition_event_id" e.input_identifiers_json))
        db.approvals h in
    record {
      in_approvals = m;
      of_packet = (eq_iff a.packet_id packet_id).0 (ground (arith, q));
      is_approved = (eq_iff a.decision "APPROVED").0 (ground (arith, q));
      named = sym (opt_eq→eq (some a.approval_id) _ (ground (arith, q)));
      event_named = sym (opt_eq→eq (some a.transition_event_id) _ (ground (arith, q)));
    }

find_binding-Binds :
    (l : Ledger) (p : Packet) (b : DestinationBinding)
    → find_first (binds_scope p) l.bindings ≡ some b
    → Binds l p b
find_binding-Binds l p b h =
    let (m, q) = find_first→in (binds_scope p) l.bindings h in
    record {
      in_bindings = m;
      same_version = sym (opt_eq→eq (some b.scope.scope_version) _ (ground (arith, q)));
      same_brand = sym (opt_eq→eq (some b.scope.brand_id) _ (ground (arith, q)));
      same_channel = sym (opt_eq→eq (some b.scope.channel_id) _ (ground (arith, q)));
      same_destination = sym (opt_eq→eq (some b.scope.destination_id) _ (ground (arith, q)));
    }

revoked_before-false :
    (db : Database) (grant_id : String) (n : ℕ) (v : CapabilityRevocation) (c : ChainEntry)
    → revoked_before db grant_id n ≡ false
    → find_first (λ x. x.grant_id == grant_id) db.capability_revocations ≡ some v
    → entry_of db.store.entries v.policy_event_id ≡ some c
    → n < c.event_sequence
unfolding revoked_before
revoked_before-false db grant_id n v c h e f =
    let late : leb c.event_sequence n ≡ false = rw (e, revoked_before, f) at h in
    ground (arith, late)

grants_release-CoversRelease :
    (db : Database) (p : Packet) (a : ReleaseAuthority) (r : ReleaseRow) (g : CapabilityGrant)
    (c : ChainEntry)
    → find_first (λ x. x.grant_id == a.grant_id) db.capability_grants ≡ some g
    → entry_of db.store.entries g.policy_event_id ≡ some c
    → grants_release db p a r.entry.event_sequence g c ≡ true
    → CoversRelease db p a r g
unfolding grants_release scope_ids_eq
grants_release-CoversRelease db p a r g c found chained h =
    let (m, same) = find_first→in (λ x. x.grant_id == a.grant_id) db.capability_grants found in
    let fresh : revoked_before db g.grant_id r.entry.event_sequence ≡ false = ground (arith, h) in
    record {
      in_grants = m;
      named = (eq_iff g.grant_id a.grant_id).0 same;
      for_principal = (eq_iff g.subject_principal_id a.principal_id).0 (ground (arith, h));
      for_release = capability_eq→eq g.capability packet_release (ground (arith, h));
      from_approved = opt_state_eq→eq g.expected_prior_state (some approved) (ground (arith, h));
      to_released = opt_state_eq→eq g.requested_state (some released) (ground (arith, h));
      same_version = opt_eq→eq g.scope_version p.scope_version (ground (arith, h));
      same_brand = opt_eq→eq g.scope.brand_id p.scope.brand_id (ground (arith, h));
      same_channel = opt_eq→eq g.scope.channel_id p.scope.channel_id (ground (arith, h));
      same_destination =
          opt_eq→eq g.scope.destination_id p.scope.destination_id (ground (arith, h));
      entry = c;
      chained = chained;
      before_release = ground (arith, h);
      not_revoked_before =
          λ v d. revoked_before-false db g.grant_id r.entry.event_sequence v d fresh;
    }

check_release_grant-CoversRelease :
    (db : Database) (p : Packet) (a : ReleaseAuthority) (r : ReleaseRow) (g : CapabilityGrant)
    → check_release_grant db p a r.entry.event_sequence ≡ ok g
    → CoversRelease db p a r g
unfolding check_release_grant
check_release_grant-CoversRelease db p a r g h =
    let found = find_first (λ x. x.grant_id == a.grant_id) db.capability_grants in
    let (k, e₁, h₁) = >>=-eq-ok (or_raise found _) _ h in
    let (c, e₂, h₂) = >>=-eq-ok (or_raise (entry_of db.store.entries k.policy_event_id) _) _ h₁ in
    let covers = grants_release db p a r.entry.event_sequence k c in
    let (u, e₃, h₃) = >>=-eq-ok (raise_if (not covers) _) _ h₂ in
    subst (CoversRelease db p a r) (ok_injective k g h₃) (
      grants_release-CoversRelease db p a r k c (or_raise-some found _ k e₁)
        (or_raise-some _ _ c e₂) (not-false covers (raise_if-false (not covers) _ u e₃)))

evidence_latest :
    (db : Database) (packet_id : String) (row r : ReleaseRow)
    → latest_release db.store.entries packet_id db.store.events ≡ some row
    → IsReleaseOf db packet_id r
    → r.entry.event_sequence ≤ row.entry.event_sequence
evidence_latest db packet_id row r found i =
    let (s, same, low) =
      latest_release-above db.store.entries packet_id db.store.events i.stored r.entry i.in_events
        (ap (is_release packet_id) i.is_event ∙ IsReleaseOf-is_release db packet_id r i)
        (ap (λ z. entry_of db.store.entries z.event_id) i.is_event ∙ i.chained) in
    subst (λ z. r.entry.event_sequence ≤ z.entry.event_sequence)
      (some_injective s row (sym same ∙ found)) low

pub release_evidence-IsEvidence :
    (l : Ledger) (p : Packet) (e : ReleaseEvidence) → release_evidence l p ≡ ok e → IsEvidence l p e
unfolding release_evidence
release_evidence-IsEvidence l p e h =
    let db = l.database in
    let latest = latest_release db.store.entries p.packet_id db.store.events in
    let (row, e₁, h₁) = >>=-eq-ok (or_raise latest _) _ h in
    let (authority, e₂, h₂) = >>=-eq-ok (release_authority row.event) _ h₁ in
    let (approval, e₃, h₃) = >>=-eq-ok (or_raise (find_first _ db.approvals) _) _ h₂ in
    let (g, e₄, h₄) =
      >>=-eq-ok (check_release_grant db p authority row.entry.event_sequence) _ h₃ in
    let (binding, e₅, h₅) = >>=-eq-ok (or_raise (find_first (binds_scope p) l.bindings) _) _ h₄ in
    let found = or_raise-some latest _ row e₁ in
    subst (IsEvidence l p) (ok_injective (evidence_of row authority approval g binding) e h₅)
      (record {
        release =
            IsRow-IsReleaseOf db p.packet_id row
              (latest_release-IsRow db.store.entries p.packet_id db.store.events row found);
        latest = λ r i. evidence_latest db p.packet_id row r found i;
        authority = release_authority-HasAuthority row.event authority e₂;
        approval =
            find_approval-IsApprovalOf db p.packet_id row.event approval
              (or_raise-some _ _ approval e₃);
        grant = check_release_grant-CoversRelease db p authority row g e₄;
        binding = find_binding-Binds l p binding (or_raise-some _ _ binding e₅);
      })
