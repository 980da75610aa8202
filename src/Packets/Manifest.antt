-- ===== src/Packets/Manifest.antt =====
-- `recompute_packet_manifest` (packets.py): the files of a packet against its row. The packet's
-- directory is a value: its file names, the hash of each file, and the two JSON files as decoded.
use governed_signal_to_conte.Base.{
  Bool, List, Option, Result, String, [], all, any, err, false, if◌then◌else◌, is_some, none, not,
  ok, opt_eq, or_raise, raise_if, runtime_error, some, true, value_error, ◌&&◌, ◌++◌, ◌==◌, ◌>>=◌,
  ◌>>◌, ◌∷◌,
}
use governed_signal_to_conte.Json.{
  Fields, Items, Value, array, cons, end, field, nil, null, object, text, value_eq,
}
use governed_signal_to_conte.Models.{ScopeIds, all_given, any_given}
use governed_signal_to_conte.Scenario.{digest}
use governed_signal_to_conte.Scope.{packet_scope}
use governed_signal_to_conte.Tables.{Packet}

abbrev pub artifact_filenames : List String
artifact_filenames =
    "01_linkedin_analysis.md" ∷ "02_csg_facebook_post.md" ∷ "03_transient_vs_governed.mmd"
    ∷ "04_governed_operating_layers_essay.md" ∷ "05_repository_note.md" ∷ []

abbrev pub manifest_filenames : List String
manifest_filenames = artifact_filenames ++ "sources.json" ∷ []

abbrev pub packet_filenames : List String
packet_filenames = manifest_filenames ++ "packet_receipt.json" ∷ []

-- A directory, as `iterdir`, `sha256_file` and `json.loads` show it; `none` is an error of the read.
pub record PacketDirectory : Type 0 where
  pub names : List String
  pub sha256_file : String → Option String
  pub read_json : String → Option Fields

abbrev pub is_named : String → List String → Bool
is_named name names = any (λ n. n == name) names

-- `actual_names == expected_names`, as sets
unfoldable pub same_names : List String → List String → Bool
same_names actual expected =
    all (λ n. is_named n expected) actual && all (λ n. is_named n actual) expected

-- `{filename: sha256_file(…) for filename in …}`
unfoldable pub hash_files : PacketDirectory → List String → Option Fields
hash_files directory [] = some end
hash_files directory (name ∷ names) =
    let rest = hash_files directory names in
    elim (directory.sha256_file name) [
      | none ↦ none
      | some digest ↦ elim rest [
        | none ↦ none
        | some fields ↦ some (field name (text digest) fields)
      ]
    ]

-- The item of a dict, if it has one.
unfoldable pub lookup : String → Fields → Option Value
lookup key end = none
lookup key (field k v rest) = let r = lookup key rest in if k == key then some v else r

-- `mapping.get(key)`
unfoldable pub get_value : String → Fields → Value
unfolding lookup
get_value key fields = elim (lookup key fields) [ none ↦ null | some v ↦ v ]

-- Each item of the first dict is in the second.
unfoldable pub has_items : Fields → Fields → Bool
unfolding lookup
has_items end other = true
has_items (field k v rest) other =
    (elim (lookup k other) [ none ↦ false | some w ↦ value_eq v w ]) && has_items rest other

-- `==` of two dicts: each has the items of the other.
unfoldable pub dict_eq : Fields → Fields → Bool
unfolding has_items
dict_eq a b = has_items a b && has_items b a

-- `==` of a decoded value and an expected one
unfoldable pub same_value : Value → Value → Bool
unfolding dict_eq
same_value (object a) (object b) = dict_eq a b
same_value v w = value_eq v w

abbrev pub scope_text : Option String → String
scope_text none = ""
scope_text (some s) = s

-- `canonical_scope.model_dump(mode="json")`
abbrev pub scope_fields : ScopeIds → Fields
scope_fields s = field "scope_version" (text "1.0") (
    field "brand_id" (text (scope_text s.brand_id)) (
      field "channel_id" (text (scope_text s.channel_id))
        (field "destination_id" (text (scope_text s.destination_id)) end)))

-- The scope of the row: absent, whole and valid, or malformed.
unfoldable pub expected_scope : Packet → Result Value
unfolding packet_scope
expected_scope p =
    if not (is_some p.scope_version) && not (any_given p.scope)
    then ok null
    else if opt_eq p.scope_version (some "1.0") && all_given p.scope
    then (packet_scope (scope_text p.scope.brand_id) (scope_text p.scope.channel_id)
          (scope_text p.scope.destination_id)
        >> ok (object (scope_fields p.scope)))
    else err (value_error "Canonical packet scope is incomplete or malformed")

abbrev items_of : List String → Items
items_of [] = nil
items_of (n ∷ ns) = cons (text n) (items_of ns)

-- What `receipt_checks` compares.
unfoldable pub receipt_agrees : Packet → Fields → String → Value → Fields → Bool
unfolding same_value get_value
receipt_agrees p artifact_hashes manifest_hash scope receipt =
    same_value (get_value "packet_id" receipt) (text p.packet_id)
    && same_value (get_value "candidate_id" receipt) (text p.candidate_id)
    && same_value (get_value "required_artifacts" receipt) (array (items_of artifact_filenames))
    && same_value (get_value "artifact_hashes" receipt) (object artifact_hashes)
    && same_value (get_value "packet_manifest_hash" receipt) (text manifest_hash)
    && same_value (get_value "scope" receipt) scope

-- The artifact hashes with that of the receipt, and the manifest's hash.
pub record PacketFiles : Type 0 where
  pub artifact_hashes : Fields
  pub manifest_hash : String

unfoldable pub fields_snoc : Fields → String → Value → Fields
fields_snoc end key v = field key v end
fields_snoc (field k w rest) key v = field k w (fields_snoc rest key v)

abbrev pub packet_files : (Fields → String) → Fields → String → PacketFiles
packet_files manifest_digest artifact_hashes receipt_hash = record {
  artifact_hashes = fields_snoc artifact_hashes "packet_receipt.json" (text receipt_hash);
  manifest_hash = manifest_digest artifact_hashes;
}

module _ (manifest_digest : Fields → String) where
  -- `directory` is `none` where the path is no directory.
  unfoldable pub recompute_packet_manifest : Option PacketDirectory → Packet → Result PacketFiles
  unfolding same_names hash_files expected_scope same_value get_value receipt_agrees fields_snoc
  recompute_packet_manifest directory p = do
    d ← or_raise directory (value_error "Packet directory is missing")
    raise_if (not (same_names d.names packet_filenames)) (value_error "Packet file set mismatch")
    artifact_hashes ←
        or_raise (hash_files d manifest_filenames)
          (value_error "Packet artifact could not be hashed")
    let manifest_hash = manifest_digest artifact_hashes
    scope ← expected_scope p
    sources ←
        or_raise (d.read_json "sources.json") (value_error "Packet governed metadata is unreadable")
    receipt ←
        or_raise (d.read_json "packet_receipt.json")
          (value_error "Packet governed metadata is unreadable")
    raise_if (not (same_value (get_value "scope" sources) scope))
        (value_error "Packet sources scope does not match canonical packet scope")
    raise_if (not (receipt_agrees p artifact_hashes manifest_hash scope receipt))
        (value_error "Packet receipt does not match materialized packet")
    receipt_hash ←
        or_raise (d.sha256_file "packet_receipt.json")
          (runtime_error "The packet receipt could not be hashed")
    ok (packet_files manifest_digest artifact_hashes receipt_hash)
