-- ===== src/Packets/Hashes.antt =====
-- The hashes of a packet's files (packets.py), by name.
use governed_signal_to_conte.Base.{
  Bool-cases, In, In-snoc, List, Option-cases, String, [], ap, arith, eq_iff, false, if◌then◌else◌,
  inl, inr, none, refl, some, some_injective, subst, sym, ◌==◌, ◌∙◌, ◌∷◌, ◌≡◌,
}
use governed_signal_to_conte.Json.{Fields, Value, end, field, text}
use governed_signal_to_conte.Packets.Manifest.{
  PacketDirectory, fields_snoc, hash_files, is_named, lookup, manifest_filenames, packet_filenames,
}

-- The hashes of named files, each under its name.
pub record IsHashed (directory : PacketDirectory) (fields : Fields) (name : String) : Type 0 where
  pub digest : String
  pub read : directory.sha256_file name ≡ some digest
  pub recorded : lookup name fields ≡ some (text digest)

pub lookup-first :
    (name : String) (v : Value) (rest : Fields) → lookup name (field name v rest) ≡ some v
unfolding lookup
lookup-first name v rest = ground (arith, eq_iff name name)

-- A later file of the same name would be the same file.
IsHashed-field :
    (d : PacketDirectory) (fields : Fields) (other name digest : String)
    → d.sha256_file other ≡ some digest
    → IsHashed d fields name
    → IsHashed d (field other (text digest) fields) name
unfolding lookup
IsHashed-field d fields other name digest r h = elim (Bool-cases (other == name)) [
  | inl e ↦
      let same = (eq_iff other name).0 e in
      record {
        digest = digest;
        read = ap (d.sha256_file) (sym same) ∙ r;
        recorded = rw (lookup, e, if◌then◌else◌) refl;
      }
  | inr e ↦ record {
    digest = h.digest;
    read = h.read;
    recorded = rw (lookup, e, if◌then◌else◌) (h.recorded);
  }
]

pub hash_files-IsHashed :
    (d : PacketDirectory) (names : List String) (fields : Fields) (name : String)
    → hash_files d names ≡ some fields
    → In name names
    → IsHashed d fields name
unfolding hash_files
hash_files-IsHashed d [] fields name h m = absurd m
hash_files-IsHashed d (n ∷ ns) fields name h m = elim (Option-cases (d.sha256_file n)) [
  | inl e ↦ absurd (ground (arith, e, h))
  | inr (x, e) ↦ elim (Option-cases (hash_files d ns)) [
    | inl f ↦ absurd (ground (arith, e, f, h))
    | inr (rest, f) ↦
        let made : field n (text x) rest ≡ fields =
          some_injective (field n (text x) rest) fields (rw (e, hash_files, f) at h) in
        subst (λ z. IsHashed d z name) made
          (elim m [
            | inl same ↦
                subst (IsHashed d (field n (text x) rest)) (sym same)
                  (record { digest = x; read = e; recorded = lookup-first n (text x) rest })
            | inr later ↦
                IsHashed-field d rest n name x e (hash_files-IsHashed d ns rest name f later)
          ])
  ]
]

pub hash_files-absent :
    (d : PacketDirectory) (names : List String) (fields : Fields) (name : String)
    → hash_files d names ≡ some fields
    → is_named name names ≡ false
    → lookup name fields ≡ none
unfolding hash_files lookup
hash_files-absent d [] fields name h m =
    subst (λ z. lookup name z ≡ none) (some_injective end fields h) refl
hash_files-absent d (n ∷ ns) fields name h m = elim (Option-cases (d.sha256_file n)) [
  | inl e ↦ absurd (ground (arith, e, h))
  | inr (x, e) ↦ elim (Option-cases (hash_files d ns)) [
    | inl f ↦ absurd (ground (arith, e, f, h))
    | inr (rest, f) ↦
        let made : field n (text x) rest ≡ fields =
          some_injective (field n (text x) rest) fields (rw (e, hash_files, f) at h) in
        let other : (n == name) ≡ false = ground (arith, m) in
        let later : is_named name ns ≡ false = ground (arith, m) in
        subst (λ z. lookup name z ≡ none) made
          (rw (lookup, other, if◌then◌else◌) (hash_files-absent d ns rest name f later))
  ]
]

pub fields_snoc-lookup :
    (fields : Fields) (key name : String) (v w : Value)
    → lookup name fields ≡ some w
    → lookup name (fields_snoc fields key v) ≡ some w
unfolding fields_snoc lookup
fields_snoc-lookup end key name v w h = cc
fields_snoc-lookup (field k u rest) key name v w h = elim (Bool-cases (k == name)) [
  | inl e ↦ ground (arith, e, h)
  | inr e ↦ ground (arith, e, h, fields_snoc-lookup rest key name v w)
]

pub fields_snoc-last :
    (fields : Fields) (key : String) (v : Value)
    → lookup key fields ≡ none
    → lookup key (fields_snoc fields key v) ≡ some v
unfolding fields_snoc lookup
fields_snoc-last end key v h = lookup-first key v end
fields_snoc-last (field k u rest) key v h = elim (Bool-cases (k == key)) [
  | inl e ↦ absurd (ground (arith, e, h))
  | inr e ↦ ground (arith, e, h, fields_snoc-last rest key v)
]

pub receipt_hashed :
    (d : PacketDirectory) (files : Fields) (digest : String)
    → hash_files d manifest_filenames ≡ some files
    → d.sha256_file "packet_receipt.json" ≡ some digest
    → (name : String) → In name packet_filenames
    → IsHashed d (fields_snoc files "packet_receipt.json" (text digest)) name
receipt_hashed d files digest h r name m =
    elim (In-snoc name "packet_receipt.json" manifest_filenames m) [
      | inl k ↦
          let i = hash_files-IsHashed d manifest_filenames files name h k in
          record {
            digest = i.digest;
            read = i.read;
            recorded =
                fields_snoc-lookup files "packet_receipt.json" name (text digest) (text i.digest)
                  i.recorded;
          }
      | inr same ↦
          subst (IsHashed d (fields_snoc files "packet_receipt.json" (text digest))) (sym same)
            (record {
              digest = digest;
              read = r;
              recorded =
                  fields_snoc-last files "packet_receipt.json" (text digest)
                    (hash_files-absent d manifest_filenames files "packet_receipt.json" h refl);
            })
    ]
