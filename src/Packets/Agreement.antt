-- ===== src/Packets/Agreement.antt =====
-- What a recomputed manifest says of the packet's files (packets.py).
use governed_signal_to_conte.Base.{
  &&→left, &&→right, >>=-eq-ok, Bool, Bool-cases, In, List, Option, String, [], all, any→in, ap,
  eq_iff, false, inl, inr, none, not, not-false, ok, ok_injective, or_raise, or_raise-some,
  raise_if, raise_if-false, some, subst, sym, true, ◌&&◌, ◌++◌, ◌==◌, ◌∙◌, ◌∷◌, ◌≡◌,
}
use governed_signal_to_conte.Json.{Fields, Value, array, cons, nil, object, text}
use governed_signal_to_conte.Packets.Hashes.{
  IsHashed, hash_files-IsHashed, hash_files-absent, receipt_hashed,
}
use governed_signal_to_conte.Packets.Manifest.{
  PacketDirectory, PacketFiles, expected_scope, get_value, has_items, hash_files, is_named, lookup,
  manifest_filenames, packet_filenames, packet_files, receipt_agrees, recompute_packet_manifest,
  same_names, same_value,
}
use governed_signal_to_conte.Packets.Scopes.{NamesScope, expected_scope-NamesScope}
use governed_signal_to_conte.Packets.Values.{has_array, has_items-lookup, has_object, has_text}
use governed_signal_to_conte.Scenario.{digest}
use governed_signal_to_conte.Scope.Components.{all-In}
use governed_signal_to_conte.Tables.{Packet}

abbrev pub manifest_names : List String
manifest_names =
    "01_linkedin_analysis.md" ∷ "02_csg_facebook_post.md" ∷ "03_transient_vs_governed.mmd"
    ∷ "04_governed_operating_layers_essay.md" ∷ "05_repository_note.md" ∷ "sources.json" ∷ []

abbrev pub all_names : List String
all_names = manifest_names ++ "packet_receipt.json" ∷ []

abbrev pub required_artifacts : Value
required_artifacts = array (
    cons (text "01_linkedin_analysis.md") (
      cons (text "02_csg_facebook_post.md") (
        cons (text "03_transient_vs_governed.mmd") (
          cons (text "04_governed_operating_layers_essay.md")
            (cons (text "05_repository_note.md") nil)))))

-- The packet's own receipt.
pub record NamesPacket (p : Packet) (f : PacketFiles) (directory : PacketDirectory)
    (receipt : Fields) : Type 0 where
  pub packet : lookup "packet_id" receipt ≡ some (text p.packet_id)
  pub candidate : lookup "candidate_id" receipt ≡ some (text p.candidate_id)
  pub artifacts : lookup "required_artifacts" receipt ≡ some required_artifacts
  pub manifest : lookup "packet_manifest_hash" receipt ≡ some (text f.manifest_hash)
  pub hashes : Fields
  pub hashes_named : lookup "artifact_hashes" receipt ≡ some (object hashes)
  pub hashes_agree : (name : String) → In name manifest_names → IsHashed directory hashes name
  pub scope : NamesScope p receipt

-- The directory that a manifest describes.
pub record Describes (manifest_digest : Fields → String) (p : Packet) (f : PacketFiles)
    (directory : Option PacketDirectory) : Type 0 where
  pub present : PacketDirectory
  pub is_present : directory ≡ some present
  pub no_other_file : (name : String) → In name present.names → In name all_names
  pub no_missing_file : (name : String) → In name all_names → In name present.names
  pub hashed : (name : String) → In name all_names → IsHashed present f.artifact_hashes name
  pub files : Fields
  pub files_hashed : (name : String) → In name manifest_names → IsHashed present files name
  pub no_other_hash : (name : String) → ¬ In name manifest_names → lookup name files ≡ none
  pub digest_of_files : f.manifest_hash ≡ manifest_digest files
  pub sources : Fields
  pub sources_read : present.read_json "sources.json" ≡ some sources
  pub sources_scope : NamesScope p sources
  pub receipt : Fields
  pub receipt_read : present.read_json "packet_receipt.json" ≡ some receipt
  pub receipt_names : NamesPacket p f present receipt

is_named-In : (name : String) (names : List String) → is_named name names ≡ true → In name names
is_named-In name names h =
    let (n, m, e) = any→in (λ n. n == name) names h in
    subst (λ z. In z names) ((eq_iff n name).0 e) m

is_named-false :
    (name : String) (names : List String) → ¬ In name names → is_named name names ≡ false
is_named-false name names h = elim (Bool-cases (is_named name names)) [
  | inl e ↦ absurd (h (is_named-In name names e))
  | inr e ↦ e
]

all_named :
    (names expected : List String) (name : String)
    → all (λ n. is_named n expected) names ≡ true
    → In name names
    → In name expected
all_named names expected name h m =
    is_named-In name expected (all-In (λ n. is_named n expected) names name h m)

same_names-left :
    (names expected : List String)
    → same_names names expected ≡ true
    → all (λ n. is_named n expected) names ≡ true
unfolding same_names
same_names-left names expected h = &&→left (all (λ n. is_named n expected) names) _ h

same_names-right :
    (names expected : List String)
    → same_names names expected ≡ true
    → all (λ n. is_named n names) expected ≡ true
unfolding same_names
same_names-right names expected h = &&→right (all (λ n. is_named n expected) names) _ h

-- A hash that stands in the files' dict stands in the receipt's.
hashes-IsHashed :
    (d : PacketDirectory) (files hashes : Fields) (name : String)
    → has_items files hashes ≡ true
    → IsHashed d files name
    → IsHashed d hashes name
hashes-IsHashed d files hashes name h i = record {
  digest = i.digest;
  read = i.read;
  recorded = has_items-lookup files hashes name i.digest h i.recorded;
}

abbrev item_agrees : Fields → String → Value → Bool
item_agrees fields key v = same_value (get_value key fields) v

receipt_agrees-NamesPacket :
    (p : Packet) (f : PacketFiles) (directory : PacketDirectory) (files : Fields) (scope : Value)
    (receipt : Fields)
    → receipt_agrees p files f.manifest_hash scope receipt ≡ true
    → hash_files directory manifest_filenames ≡ some files
    → expected_scope p ≡ ok scope
    → NamesPacket p f directory receipt
unfolding receipt_agrees
receipt_agrees-NamesPacket p f directory files scope receipt h r e =
    let a₅ = item_agrees receipt "scope" scope in
    let a₁ = item_agrees receipt "packet_id" (text p.packet_id) in
    let a₂ = a₁ && item_agrees receipt "candidate_id" (text p.candidate_id) in
    let a₃ = a₂ && item_agrees receipt "required_artifacts" required_artifacts in
    let a₄ = a₃ && item_agrees receipt "artifact_hashes" (object files) in
    let a = a₄ && item_agrees receipt "packet_manifest_hash" (text f.manifest_hash) in
    let h₅ = &&→left a a₅ h in
    let h₄ = &&→left a₄ _ h₅ in
    let h₃ = &&→left a₃ _ h₄ in
    let h₂ = &&→left a₂ _ h₃ in
    let (hashes, present, items) = has_object "artifact_hashes" receipt files (&&→right a₃ _ h₄) in
    record {
      packet = has_text "packet_id" receipt p.packet_id (&&→left a₁ _ h₂);
      candidate = has_text "candidate_id" receipt p.candidate_id (&&→right a₁ _ h₂);
      artifacts = has_array "required_artifacts" receipt _ (&&→right a₂ _ h₃);
      manifest = has_text "packet_manifest_hash" receipt f.manifest_hash (&&→right a₄ _ h₅);
      hashes = hashes;
      hashes_named = present;
      hashes_agree = λ name m.
          hashes-IsHashed directory files hashes name items
            (hash_files-IsHashed directory manifest_filenames files name r m);
      scope = expected_scope-NamesScope p scope receipt e (&&→right a a₅ h);
    }

-- Where a manifest is recomputed: the directory has the seven files of a packet and no other; each of
-- them has its hash recorded under its name; the manifest's hash is that of a dict with exactly the
-- hashes of the five artifacts and `sources.json`; the packet's own receipt names this packet, this
-- candidate, the five artifacts, these hashes and this manifest's hash; and the receipt and
-- `sources.json` name the row's scope, which `PacketScope` accepts, or none where the row has none.
pub recompute_packet_manifest-Describes :
    (manifest_digest : Fields → String) (directory : Option PacketDirectory) (p : Packet)
    (f : PacketFiles)
    → recompute_packet_manifest manifest_digest directory p ≡ ok f
    → Describes manifest_digest p f directory
unfolding recompute_packet_manifest
recompute_packet_manifest-Describes H directory p f h =
    let (d, e₁, h₁) = >>=-eq-ok (or_raise directory _) _ h in
    let (u, e₂, h₂) = >>=-eq-ok (raise_if (not (same_names d.names packet_filenames)) _) _ h₁ in
    let (files, e₃, h₃) = >>=-eq-ok (or_raise (hash_files d manifest_filenames) _) _ h₂ in
    let (scope, e₄, h₄) = >>=-eq-ok (expected_scope p) _ h₃ in
    let (sources, e₅, h₅) = >>=-eq-ok (or_raise (d.read_json "sources.json") _) _ h₄ in
    let (receipt, e₆, h₆) = >>=-eq-ok (or_raise (d.read_json "packet_receipt.json") _) _ h₅ in
    let files_read = or_raise-some (hash_files d manifest_filenames) _ files e₃ in
    let same_scope = same_value (get_value "scope" sources) scope in
    let (v, e₇, h₇) = >>=-eq-ok (raise_if (not same_scope) _) _ h₆ in
    let agrees = receipt_agrees p files (H files) scope receipt in
    let (w, e₈, h₈) = >>=-eq-ok (raise_if (not agrees) _) _ h₇ in
    let (digest, e₉, h₉) = >>=-eq-ok (or_raise (d.sha256_file "packet_receipt.json") _) _ h₈ in
    let made = ok_injective (packet_files H files digest) f h₉ in
    let made_hash = ap (λ z. z.manifest_hash) (sym made) in
    let same_names_true =
      not-false (same_names d.names packet_filenames) (raise_if-false _ _ u e₂) in
    record {
      present = d;
      is_present = or_raise-some directory _ d e₁;
      no_other_file = λ name.
          all_named d.names all_names name (same_names-left d.names all_names same_names_true);
      no_missing_file = λ name.
          all_named all_names d.names name (same_names-right d.names all_names same_names_true);
      hashed = λ name m.
          subst (λ z. IsHashed d z.artifact_hashes name) made
            (receipt_hashed d files digest files_read (or_raise-some _ _ digest e₉) name m);
      files = files;
      files_hashed = λ name m. hash_files-IsHashed d manifest_filenames files name files_read m;
      no_other_hash = λ name n.
          hash_files-absent d manifest_filenames files name files_read
            (is_named-false name manifest_names n);
      digest_of_files = made_hash;
      sources = sources;
      sources_read = or_raise-some _ _ sources e₅;
      sources_scope =
          expected_scope-NamesScope p scope sources e₄
            (not-false same_scope (raise_if-false (not same_scope) _ v e₇));
      receipt = receipt;
      receipt_read = or_raise-some _ _ receipt e₆;
      receipt_names =
          receipt_agrees-NamesPacket p f d files scope receipt
            (ap (λ z. receipt_agrees p files z scope receipt) made_hash
              ∙ not-false agrees (raise_if-false (not agrees) _ w e₈))
            files_read e₄;
    }
