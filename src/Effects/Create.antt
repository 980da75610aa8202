-- ===== src/Effects/Create.antt =====
-- `create_external_effect_request` (external_effects.py): a released packet has one effect, which is
-- made from the evidence of its release and found again afterwards. The class in which an exception
-- of the first read is wrapped is left out.
use governed_signal_to_conte.Base.{
  Bool, Option, Result, String, effect_error, err, find_first, key_error, none, not, ok, opt_eq,
  or_raise, raise_if, some, ◌&&◌, ◌==◌, ◌>>=◌, ◌>>◌,
}
use governed_signal_to_conte.Chain.Material.{Material}
use governed_signal_to_conte.Commit.Progress.{find_packet}
use governed_signal_to_conte.Effects.Record.{
  EffectWorkspace, Host, append_effect_event, effect_event, project_effect_event,
}
use governed_signal_to_conte.Effects.Release.{release_evidence}
use governed_signal_to_conte.Effects.Request.{
  EffectMaterial, derived_request, external_effect_request, request_receipt,
}
use governed_signal_to_conte.Effects.Rows.{insert_request}
use governed_signal_to_conte.Effects.Tables.{EffectRequest, LedgerTransaction}
use governed_signal_to_conte.Json.{get_text}
use governed_signal_to_conte.Packets.Manifest.{PacketFiles, dict_eq}
use governed_signal_to_conte.Receipts.Events.{TransitionEvent}
use governed_signal_to_conte.Receipts.Fields.{RunReceipt}
use governed_signal_to_conte.Tables.{Packet}
use governed_signal_to_conte.Workflow.{released, state_eq}

-- An existing request must still match the packet's files and its row.
unfoldable pub matches_files : Packet → PacketFiles → EffectRequest → Bool
unfolding get_text opt_eq
matches_files p files q =
    files.manifest_hash == q.packet_manifest_hash
    && opt_eq (get_text "packet_receipt.json" files.artifact_hashes) (some q.packet_receipt_hash)
    && files.manifest_hash == p.manifest_hash

-- The files read within the transaction are those that were read before it.
unfoldable pub files_unchanged : Packet → PacketFiles → PacketFiles → Bool
unfolding dict_eq
files_unchanged p before current =
    current.manifest_hash == before.manifest_hash
    && dict_eq current.artifact_hashes before.artifact_hashes
    && current.manifest_hash == p.manifest_hash

-- `created_request` is new, `found_request` was there.
pub data Requested : Type 0 where
  created_request found_request : EffectRequest → Requested

abbrev pub request_event : Host → EffectRequest → RunReceipt → TransitionEvent
request_event host q receipt =
    effect_event host.event_id receipt "external_effect" q.effect_id q.request_hash

module _ (canonical_json_hash : Material → String) where
  -- The receipt, the event and the row of a new request.
  unfoldable pub store_request :
      Host → Option String → PacketFiles → EffectRequest → LedgerTransaction Requested
  unfolding request_receipt effect_event append_effect_event insert_request
  store_request host asserted_actor files q l = do
    receipt ← request_receipt host asserted_actor files q
    appended ← append_effect_event canonical_json_hash (request_event host q receipt) l
    l' ← insert_request q appended
    ok (created_request q, l')

module _ (canonical_json_hash : Material → String) (effect_hash : EffectMaterial → String) where
  -- The block where the packet has no request.
  unfoldable pub derive_request :
      Host → Option String → Packet → PacketFiles → Result PacketFiles → LedgerTransaction Requested
  unfolding files_unchanged release_evidence derived_request external_effect_request store_request
  derive_request host asserted_actor p before read_again l = do
    current ← read_again
    raise_if (not (files_unchanged p before current))
        (effect_error "Packet artifacts changed while deriving the external effect")
    evidence ← release_evidence l p
    packet_receipt_hash ←
        or_raise (get_text "packet_receipt.json" current.artifact_hashes)
          (key_error "packet_receipt.json")
    effect ←
        external_effect_request
          (derived_request effect_hash host p current packet_receipt_hash evidence)
    store_request canonical_json_hash host asserted_actor current effect l

  -- The `with database.connect(…)` block. The packet's files are read before it and within it.
  unfoldable pub request_transaction :
      Host
      → String
      → Option String
      → PacketFiles
      → (Packet → Result PacketFiles)
      → LedgerTransaction Requested
  unfolding matches_files external_effect_request derive_request
  request_transaction host packet_id asserted_actor before read_again l = do
    let unreleased = effect_error "External effects require a RELEASED packet"
    p ← or_raise (find_packet l.database packet_id) unreleased
    raise_if (not (state_eq p.state released)) unreleased
    elim (find_first (λ q. q.packet_id == packet_id) l.requests) [
      | none ↦ derive_request host asserted_actor p before (read_again p) l
      | some existing ↦ do
        raise_if (not (matches_files p before existing))
            (effect_error "Existing effect request no longer matches governed packet artifacts")
        effect ← external_effect_request existing
        ok (found_request effect, l)
    ]

  -- The call once the packet's files are read.
  unfoldable pub request_effect :
      Host
      → String
      → Option String
      → PacketFiles
      → (Packet → Result PacketFiles)
      → EffectWorkspace
      → Result EffectRequest × EffectWorkspace
  unfolding request_transaction project_effect_event
  request_effect host packet_id asserted_actor before read_again w =
      elim (request_transaction host packet_id asserted_actor before read_again w.ledger) [
        | err e ↦ (err e, w)
        | ok (found_request q, l) ↦ (ok q, record w { ledger = l })
        | ok (created_request q, l) ↦
            project_effect_event canonical_json_hash host.projected_at_utc host.event_id q
              (record w { ledger = l })
      ]

  -- `read_before` and `read_again` are the two calls of `recompute_packet_manifest`.
  unfoldable pub create_external_effect_request :
      Host
      → String
      → Option String
      → (Packet → Result PacketFiles)
      → (Packet → Result PacketFiles)
      → EffectWorkspace
      → Result EffectRequest × EffectWorkspace
  unfolding request_effect
  create_external_effect_request host packet_id asserted_actor read_before read_again w =
      elim (or_raise (find_packet w.ledger.database packet_id) (key_error "Unknown packet")
        >>= read_before) [
          | err e ↦ (err e, w)
          | ok before ↦ request_effect host packet_id asserted_actor before read_again w
        ]
