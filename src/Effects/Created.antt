-- ===== src/Effects/Created.antt =====
-- The calls of `create_external_effect_request`, by their outcome.
use governed_signal_to_conte.Base.{
  >>=-eq-ok, Option, Option-cases, Result, String, ap, arith, effect_error, eq_iff, find_first,
  find_first→in, inl, inr, none, not, not-false, ok, ok_injective, opt_eq→eq, or_raise,
  or_raise-some, raise_if, raise_if-false, some, subst, sym, true, ◌==◌, ◌>>=◌, ◌>>◌, ◌∙◌, ◌≡◌,
}
use governed_signal_to_conte.Chain.Material.{Material}
use governed_signal_to_conte.Commit.Progress.{find_packet}
use governed_signal_to_conte.Effects.Create.{
  Requested, created_request, found_request, matches_files, request_transaction,
}
use governed_signal_to_conte.Effects.Derived.{
  IsDerived, derive_request-IsDerived, external_effect_request-same,
}
use governed_signal_to_conte.Effects.Record.{Host}
use governed_signal_to_conte.Effects.Request.{EffectMaterial, external_effect_request}
use governed_signal_to_conte.Effects.Tables.{EffectRequest, Ledger}
use governed_signal_to_conte.Json.{get_text, text}
use governed_signal_to_conte.Packets.Manifest.{PacketFiles, lookup}
use governed_signal_to_conte.Packets.Values.{get_text-lookup}
use governed_signal_to_conte.Tables.{Packet}
use governed_signal_to_conte.Workflow.{released, state_eq, state_eq→eq}

-- The packet that a request is made for, as its transaction finds it.
pub record ReleasedPacket (packet_id : String) (l : Ledger) : Type 0 where
  pub packet : Packet
  pub packet_found : find_packet l.database packet_id ≡ some packet
  pub is_released : packet.state ≡ released

-- An existing request still has the hashes of the packet's files, and its manifest that of the row.
pub record MatchesFiles (p : Packet) (files : PacketFiles) (q : EffectRequest) : Type 0 where
  pub same_manifest : files.manifest_hash ≡ q.packet_manifest_hash
  pub same_receipt :
      lookup "packet_receipt.json" files.artifact_hashes ≡ some (text q.packet_receipt_hash)
  pub row_manifest : files.manifest_hash ≡ p.manifest_hash

matches_files-MatchesFiles :
    (p : Packet) (files : PacketFiles) (q : EffectRequest)
    → matches_files p files q ≡ true
    → MatchesFiles p files q
unfolding matches_files
matches_files-MatchesFiles p files q h =
    let receipt = get_text "packet_receipt.json" files.artifact_hashes in
    record {
      same_manifest = (eq_iff files.manifest_hash q.packet_manifest_hash).0 (ground (arith, h));
      same_receipt =
          get_text-lookup "packet_receipt.json" q.packet_receipt_hash files.artifact_hashes
            (opt_eq→eq receipt (some q.packet_receipt_hash) (ground (arith, h)));
      row_manifest = (eq_iff files.manifest_hash p.manifest_hash).0 (ground (arith, h));
    }

abbrev request_answer : Requested → Ledger → Requested × Ledger
request_answer r l = (r, l)

-- The request that is there is read, and nothing changes.
existing-found :
    (p : Packet) (before : PacketFiles) (existing : EffectRequest) (r : Requested) (l l' : Ledger)
    → (raise_if
          (not (matches_files p before existing))
          (effect_error "Existing effect request no longer matches governed packet artifacts")
        >> (external_effect_request existing >>= λ effect.
            ok (request_answer (found_request effect) l)))
      ≡ ok (r, l')
    → (r ≡ found_request existing) × (l' ≡ l) × (matches_files p before existing ≡ true)
existing-found p before existing r l l' h =
    let (u, e₁, h₁) = >>=-eq-ok (raise_if (not (matches_files p before existing)) _) _ h in
    let (effect, e₂, h₂) = >>=-eq-ok (external_effect_request existing) _ h₁ in
    let same = ok_injective (request_answer (found_request effect) l) (request_answer r l') h₂ in
    (
      sym (ap (λ x. x.0) same)
          ∙ ap found_request (sym (external_effect_request-same existing effect e₂)),
      sym (ap (λ x. x.1) same),
      not-false (matches_files p before existing) (raise_if-false _ _ u e₁),
    )

-- What a transaction returns, and how.
pub data RequestOutcome (G : EffectMaterial → String) (host : Host) (packet_id : String)
    (before : PacketFiles) (again : Packet → Result PacketFiles) (r : Requested) (l l' : Ledger)
    : Type 0 where
  was_created :
      (q : EffectRequest) (p : ReleasedPacket packet_id l)
      → r ≡ created_request q
      → find_first (λ x. x.packet_id == packet_id) l.requests ≡ none
      → (d : IsDerived G host p.packet before q l l') → again p.packet ≡ ok d.current
      → RequestOutcome G host packet_id before again r l l'
  was_found :
      (q : EffectRequest) (p : ReleasedPacket packet_id l)
      → r ≡ found_request q
      → l' ≡ l
      → find_first (λ x. x.packet_id == packet_id) l.requests ≡ some q
      → MatchesFiles p.packet before q
      → RequestOutcome G host packet_id before again r l l'

module _ (H : Material → String) (G : EffectMaterial → String) where
  -- Where the transaction of a request ends normally, the packet is RELEASED. Either it had a request,
  -- which has the hashes of the packet's files and is returned, and nothing changes. Or it had none,
  -- the files, read again, are as they were before, and one request is added under a new id, which names the
  -- packet, the files' hashes and the evidence: the packet's latest accepted release in the chain, its
  -- approval, its grant, which was in the chain before it, covered it and had not been revoked in the
  -- chain before it, and the binding of the packet's scope.
  pub request_transaction-RequestOutcome :
      (host : Host) (packet_id : String) (actor : Option String) (before : PacketFiles)
      (again : Packet → Result PacketFiles) (r : Requested) (l l' : Ledger)
      → request_transaction H G host packet_id actor before again l ≡ ok (r, l')
      → RequestOutcome G host packet_id before again r l l'
  unfolding request_transaction
  request_transaction-RequestOutcome host packet_id actor before again r l l' h =
      let (p, e₁, h₁) = >>=-eq-ok (or_raise (find_packet l.database packet_id) _) _ h in
      let packet_found = or_raise-some (find_packet l.database packet_id) _ p e₁ in
      let is_released = state_eq p.state released in
      let (u, e₂, h₂) = >>=-eq-ok (raise_if (not is_released) _) _ h₁ in
      let released_now = not-false is_released (raise_if-false (not is_released) _ u e₂) in
      let named : p.packet_id ≡ packet_id =
        (eq_iff p.packet_id packet_id).0
          (find_first→in (λ x. x.packet_id == packet_id) l.database.packets packet_found).1 in
      let found : ReleasedPacket packet_id l = record {
        packet = p;
        packet_found = packet_found;
        is_released = state_eq→eq p.state released released_now;
      } in
      elim (Option-cases (find_first (λ q. q.packet_id == packet_id) l.requests)) [
        | inl e ↦
            let (q, made, (derived, second)) =
              derive_request-IsDerived H G host actor p before (again p) r l l'
                (subst (λ z. find_first (λ x. x.packet_id == z) l.requests ≡ none) (sym named) e)
                (rw e at h₂) in
            was_created q found made e derived second
        | inr (existing, e) ↦
            let (made, same, matches) = existing-found p before existing r l l' (rw e at h₂) in
            was_found existing found made same e
              (matches_files-MatchesFiles p before existing matches)
      ]
