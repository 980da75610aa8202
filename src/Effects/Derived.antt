-- ===== src/Effects/Derived.antt =====
-- What `create_external_effect_request` has checked, and what it leaves, where it does not raise.
use governed_signal_to_conte.Base.{
  &&→left, &&→right, >>=-eq-ok, Option, Result, String, [], ap, arith, eq_iff, err, find_first,
  none, not, not-false, ok, ok_injective, or_raise, or_raise-some, raise_if, raise_if-false, refl,
  some, subst, sym, true, ◌&&◌, ◌++◌, ◌==◌, ◌>>=◌, ◌∙◌, ◌∷◌, ◌≡◌,
}
use governed_signal_to_conte.Chain.Material.{Material}
use governed_signal_to_conte.Database.{Database}
use governed_signal_to_conte.Effects.Create.{
  Requested, created_request, derive_request, files_unchanged, request_event, store_request,
}
use governed_signal_to_conte.Effects.Evidence.{IsEvidence}
use governed_signal_to_conte.Effects.Evident.{release_evidence-IsEvidence}
use governed_signal_to_conte.Effects.Frame.{append_effect_event-frame, is_some-none}
use governed_signal_to_conte.Effects.Record.{Host, append_effect_event}
use governed_signal_to_conte.Effects.Release.{ReleaseEvidence, release_evidence}
use governed_signal_to_conte.Effects.Request.{
  EffectMaterial, derived_request, external_effect_request, matches_patterns, request_receipt,
  request_values,
}
use governed_signal_to_conte.Effects.Rows.{find_request, insert_request}
use governed_signal_to_conte.Effects.Tables.{EffectRequest, Ledger}
use governed_signal_to_conte.Json.{get_text, text}
use governed_signal_to_conte.Packets.Manifest.{PacketFiles, dict_eq, lookup}
use governed_signal_to_conte.Packets.Values.{
  dict_eq-left, dict_eq-right, get_text-lookup, has_items-lookup,
}
use governed_signal_to_conte.Receipts.Fields.{RunReceipt}
use governed_signal_to_conte.Scope.{packet_scope}
use governed_signal_to_conte.Tables.{Packet}

abbrev with_request : EffectRequest → Ledger → Ledger
with_request q l = record l { requests = l.requests ++ q ∷ [] }

abbrev with_database_request : EffectRequest → Ledger → Database → Ledger
with_database_request q l database = record l {
  database = database;
  requests = l.requests ++ q ∷ [];
}

insert_request-frame :
    (q : EffectRequest) (l l' : Ledger)
    → insert_request q l ≡ ok l'
    → (find_request l q.effect_id ≡ none) × (l' ≡ with_request q l)
unfolding insert_request
insert_request-frame q l l' h =
    (is_some-none (find_request l q.effect_id) (ground arith), ground arith)

-- A request is added to the table under a new id.
pub record NewRequest (q : EffectRequest) (l l' : Ledger) : Type 0 where
  pub new_id : find_request l q.effect_id ≡ none
  pub changed : l' ≡ record l { database = l'.database; requests = l.requests ++ q ∷ [] }

abbrev requested_answer : Requested → Ledger → Requested × Ledger
requested_answer r l = (r, l)

appended-NewRequest :
    (q : EffectRequest) (l m l' : Ledger)
    → m ≡ record l { database = m.database }
    → insert_request q m ≡ ok l'
    → NewRequest q l l'
appended-NewRequest q l m l' f h =
    let (fresh, changed) = insert_request-frame q m l' h in
    record {
      new_id = ap (λ x. find_request x q.effect_id) (sym f) ∙ fresh;
      changed =
          changed
          ∙ ap (with_request q) f
          ∙ ap (with_database_request q l) (sym (ap (λ x. x.database) changed));
    }

recorded-NewRequest :
    (H : Material → String) (host : Host) (q : EffectRequest) (r : Requested) (l l' : Ledger)
    (made : Result RunReceipt)
    → (made >>= λ receipt. append_effect_event H (request_event host q receipt) l >>= λ appended.
        insert_request q appended >>= λ next. ok (requested_answer (created_request q) next))
      ≡ ok (r, l')
    → (r ≡ created_request q) × NewRequest q l l'
recorded-NewRequest H host q r l l' (err e) h = cc
recorded-NewRequest H host q r l l' (ok receipt) h =
    let event = request_event host q receipt in
    let (m, e₁, h₁) = >>=-eq-ok (append_effect_event H event l) _ h in
    let (next, e₂, h₂) = >>=-eq-ok (insert_request q m) _ h₁ in
    let same =
      ok_injective (requested_answer (created_request q) next) (requested_answer r l') h₂ in
    (
      sym (ap (λ x. x.0) same),
      appended-NewRequest q l m l' (append_effect_event-frame H event l m e₁)
          (e₂ ∙ ap (λ x. ok (x.1)) same),
    )

store_request-NewRequest :
    (H : Material → String) (host : Host) (actor : Option String) (files : PacketFiles)
    (q : EffectRequest) (r : Requested) (l l' : Ledger)
    → store_request H host actor files q l ≡ ok (r, l')
    → (r ≡ created_request q) × NewRequest q l l'
unfolding store_request
store_request-NewRequest H host actor files q r l l' h =
    recorded-NewRequest H host q r l l' (request_receipt host actor files q) h

pub external_effect_request-same :
    (q q' : EffectRequest) → external_effect_request q ≡ ok q' → q ≡ q'
unfolding external_effect_request
external_effect_request-same q q' h =
    let (u, e₁, h₁) = >>=-eq-ok (raise_if (not (matches_patterns q)) _) _ h in
    let (v, e₂, h₂) =
      >>=-eq-ok (packet_scope q.scope.brand_id q.scope.channel_id q.scope.destination_id) _ h₁ in
    ok_injective q q' h₂

-- The files are those that were read before, and the manifest is that of the packet's row.
pub record IsUnchanged (p : Packet) (before current : PacketFiles) : Type 0 where
  pub same_manifest : current.manifest_hash ≡ before.manifest_hash
  pub row_manifest : current.manifest_hash ≡ p.manifest_hash
  pub hash_stays :
      (name s : String)
      → lookup name before.artifact_hashes ≡ some (text s)
      → lookup name current.artifact_hashes ≡ some (text s)
  pub hash_was :
      (name s : String)
      → lookup name current.artifact_hashes ≡ some (text s)
      → lookup name before.artifact_hashes ≡ some (text s)

-- The request names its packet, the files, and the rows of the evidence.
pub record NamesEvidence (q : EffectRequest) (p : Packet) (before : PacketFiles)
    (e : ReleaseEvidence) : Type 0 where
  pub packet : q.packet_id ≡ p.packet_id
  pub candidate : q.candidate_id ≡ p.candidate_id
  pub manifest : q.packet_manifest_hash ≡ before.manifest_hash
  pub packet_receipt :
      lookup "packet_receipt.json" before.artifact_hashes ≡ some (text q.packet_receipt_hash)
  pub release : q.release_event_id ≡ e.row.event.event_id
  pub release_hash : q.release_event_hash ≡ e.row.entry.event_hash
  pub release_sequence : q.release_event_sequence ≡ e.row.entry.event_sequence
  pub approval : q.approval_id ≡ e.approval.approval_id
  pub approval_event : q.approval_event_id ≡ e.approval.transition_event_id
  pub principal : q.authenticated_principal_id ≡ e.authority.principal_id
  pub grant : q.authorizing_grant_id ≡ e.grant.grant_id
  pub binding : q.destination_binding_id ≡ e.binding.binding_id
  pub scope : q.scope ≡ e.binding.scope
  pub adapter : q.adapter_id ≡ e.binding.adapter_id
  pub target : q.external_target_ref ≡ e.binding.external_target_ref
  pub credential : q.credential_ref ≡ e.binding.credential_ref

-- A new request is that of a released packet whose files are as they were and whose release is in
-- evidence.
pub record IsDerived (effect_hash : EffectMaterial → String) (host : Host) (p : Packet)
    (before : PacketFiles) (q : EffectRequest) (l l' : Ledger) : Type 0 where
  pub absent : find_first (λ x. x.packet_id == p.packet_id) l.requests ≡ none
  pub current : PacketFiles
  pub unchanged : IsUnchanged p before current
  pub evidence : ReleaseEvidence
  pub in_evidence : IsEvidence l p evidence
  pub names : NamesEvidence q p before evidence
  pub receipt_hash : String
  pub is_request : q ≡ derived_request effect_hash host p current receipt_hash evidence
  pub is_new : NewRequest q l l'

files_unchanged-IsUnchanged :
    (p : Packet) (before current : PacketFiles)
    → files_unchanged p before current ≡ true
    → IsUnchanged p before current
unfolding files_unchanged
files_unchanged-IsUnchanged p before current h =
    let m = current.manifest_hash == before.manifest_hash in
    let d = dict_eq current.artifact_hashes before.artifact_hashes in
    let both = &&→left (m && d) (current.manifest_hash == p.manifest_hash) h in
    let same = &&→right m d both in
    record {
      same_manifest = (eq_iff current.manifest_hash before.manifest_hash).0 (&&→left m d both);
      row_manifest = (eq_iff current.manifest_hash p.manifest_hash).0 (&&→right (m && d) _ h);
      hash_stays = λ name s.
          has_items-lookup before.artifact_hashes current.artifact_hashes name s
            (dict_eq-right current.artifact_hashes before.artifact_hashes same);
      hash_was = λ name s.
          has_items-lookup current.artifact_hashes before.artifact_hashes name s
            (dict_eq-left current.artifact_hashes before.artifact_hashes same);
    }

derived_request-NamesEvidence :
    (G : EffectMaterial → String) (host : Host) (p : Packet) (before current : PacketFiles)
    (receipt_hash : String) (e : ReleaseEvidence)
    → IsUnchanged p before current
    → e.grant.grant_id ≡ e.authority.grant_id
    → get_text "packet_receipt.json" current.artifact_hashes ≡ some receipt_hash
    → NamesEvidence (derived_request G host p current receipt_hash e) p before e
unfolding derived_request request_values
derived_request-NamesEvidence G host p before current receipt_hash e u g r = record {
  packet = refl;
  candidate = refl;
  manifest = u.same_manifest;
  packet_receipt =
      u.hash_was "packet_receipt.json" receipt_hash
        (get_text-lookup "packet_receipt.json" receipt_hash current.artifact_hashes r);
  release = refl;
  release_hash = refl;
  release_sequence = refl;
  approval = refl;
  approval_event = refl;
  principal = refl;
  grant = sym g;
  binding = refl;
  scope = refl;
  adapter = refl;
  target = refl;
  credential = refl;
}

module _ (H : Material → String) (G : EffectMaterial → String) where
  pub derive_request-IsDerived :
      (host : Host) (actor : Option String) (p : Packet) (before : PacketFiles)
      (again : Result PacketFiles) (r : Requested) (l l' : Ledger)
      → find_first (λ x. x.packet_id == p.packet_id) l.requests ≡ none
      → derive_request H G host actor p before again l ≡ ok (r, l')
      → (q : EffectRequest) × (r ≡ created_request q)
        × ((d : IsDerived G host p before q l l') × (again ≡ ok d.current))
  unfolding derive_request
  derive_request-IsDerived host actor p before again r l l' n h =
      let (current, e₁, h₁) = >>=-eq-ok again _ h in
      let same_files = files_unchanged p before current in
      let (u, e₂, h₂) = >>=-eq-ok (raise_if (not same_files) _) _ h₁ in
      let (evidence, e₃, h₃) = >>=-eq-ok (release_evidence l p) _ h₂ in
      let (receipt_hash, e₄, h₄) =
        >>=-eq-ok (or_raise (get_text "packet_receipt.json" current.artifact_hashes) _) _ h₃ in
      let values = derived_request G host p current receipt_hash evidence in
      let (q, e₅, h₅) = >>=-eq-ok (external_effect_request values) _ h₄ in
      let same = external_effect_request-same values q e₅ in
      let still =
        files_unchanged-IsUnchanged p before current
          (not-false same_files (raise_if-false (not same_files) _ u e₂)) in
      let evident = release_evidence-IsEvidence l p evidence e₃ in
      let (made, fresh) = store_request-NewRequest H host actor current q r l l' h₅ in
      (
        q,
        made,
        (
          record {
            absent = n;
            current = current;
            unchanged = still;
            evidence = evidence;
            in_evidence = evident;
            names =
                subst (λ z. NamesEvidence z p before evidence) same
                  (derived_request-NamesEvidence G host p before current receipt_hash evidence still
                    evident.grant.named (or_raise-some _ _ receipt_hash e₄));
            receipt_hash = receipt_hash;
            is_request = sym same;
            is_new = fresh;
          },
          e₁,
        ),
      )
