-- ===== src/Chain/Roundtrip.antt =====
-- A prepared event is read back (integrity.py): the stored receipt passes the check of the chain
-- entry that is stored with it.
use governed_signal_to_conte.Base.{
  >>=-eq-ok, String, arith, eq_iff, nat_eq, ok, ok_injective, opt_eq_refl, refl, some, subst, true,
  ℕ, ◌≡◌,
}
use governed_signal_to_conte.Chain.Events.{
  PreparedChainedEvent, calculate_event_hash, canonical_receipt_from_event, hashed, is_aligned,
  prepare_chained_event, unhashed, validate_event_receipt_alignment,
}
use governed_signal_to_conte.Chain.Material.{
  ChainEntry, Material, chain_origin_native, chain_version_1, event_material,
}
use governed_signal_to_conte.Chain.Rows.{chain_matches, without_hash}
use governed_signal_to_conte.Receipts.{RunReceipt, TransitionEvent, no_chain, validate_receipt}

abbrev native_entry : String → ℕ → String → String → ChainEntry
native_entry event_id n prev h = record {
  event_id = event_id;
  chain_version = chain_version_1;
  chain_origin = chain_origin_native;
  event_sequence = n;
  previous_event_hash = prev;
  event_hash = h;
}

abbrev pub prepared_entry : String → PreparedChainedEvent → ChainEntry
prepared_entry event_id p = record {
  event_id = event_id;
  chain_version = p.chain_version;
  chain_origin = p.chain_origin;
  event_sequence = p.event_sequence;
  previous_event_hash = p.previous_event_hash;
  event_hash = p.event_hash;
}

abbrev pub prepared_event : TransitionEvent → PreparedChainedEvent → TransitionEvent
prepared_event e p = record e { receipt_json = p.receipt_json }

nat_eq_refl : (n : ℕ) → nat_eq n n ≡ true
nat_eq_refl n = ground arith

hashed-chain_matches :
    (r : RunReceipt) (n : ℕ) (prev h event_id : String)
    → chain_matches (hashed r n prev h).chain (native_entry event_id n prev h) ≡ true
hashed-chain_matches r n prev h event_id = ground (
  arith,
  opt_eq_refl (some chain_version_1),
  opt_eq_refl (some chain_origin_native),
  opt_eq_refl (some prev),
  opt_eq_refl (some h),
  nat_eq_refl n,
)

-- The alignment does not read the event's own copy of the receipt.
aligned_again :
    (e : TransitionEvent) (r s : RunReceipt)
    → validate_event_receipt_alignment (record e { receipt_json = s }) r
      ≡ validate_event_receipt_alignment e r
unfolding validate_event_receipt_alignment is_aligned
aligned_again e r s = refl

-- What reads back an entry with its event.
abbrev pub ReadsBack :
    (Material → String) → TransitionEvent → ℕ → String → PreparedChainedEvent → Type 0
ReadsBack H e n prev p =
    (canonical_receipt_from_event H (prepared_event e p) (some (prepared_entry e.event_id p))
      ≡ ok p.receipt_json)
    × (p.event_sequence ≡ n)
    × (p.previous_event_hash ≡ prev)

abbrev prepared_as : RunReceipt → ℕ → String → String → PreparedChainedEvent
prepared_as bare n prev h = record {
  receipt_json = hashed bare n prev h;
  chain_version = chain_version_1;
  chain_origin = chain_origin_native;
  event_sequence = n;
  previous_event_hash = prev;
  event_hash = h;
}

same_hash :
    (H : Material → String) (e : TransitionEvent) (n : ℕ) (prev : String) (bare : RunReceipt)
    (h : String)
    → calculate_event_hash H
        (record e { receipt_json = hashed bare n prev h })
        n
        prev
        (without_hash (hashed bare n prev h))
        chain_version_1
        chain_origin_native
      ≡ calculate_event_hash H e n prev (unhashed bare n prev) chain_version_1 chain_origin_native
unfolding calculate_event_hash event_material
same_hash H e n prev bare h = refl

prepared_as-ReadsBack :
    (H : Material → String) (e : TransitionEvent) (n : ℕ) (prev : String) (bare : RunReceipt)
    (h : String) (u v : Unit {0})
    → calculate_event_hash H e n prev (unhashed bare n prev) chain_version_1 chain_origin_native ≡ h
    → validate_receipt (hashed bare n prev h) ≡ ok u
    → validate_event_receipt_alignment e (hashed bare n prev h) ≡ ok v
    → ReadsBack H e n prev (prepared_as bare n prev h)
unfolding canonical_receipt_from_event
prepared_as-ReadsBack H e n prev bare h u v d r a = (
  rw
      (
        r,
        hashed-chain_matches bare n prev h e.event_id,
        same_hash H e n prev bare h,
        d,
        (eq_iff h h).1 refl,
        aligned_again e (hashed bare n prev h) (hashed bare n prev h),
        a,
      )
      refl,
  refl,
  refl,
)

-- A prepared event, stored with its receipt and its chain entry, passes the check of that entry,
-- which gives back the prepared receipt; the entry has the sequence and the predecessor hash asked
-- for.
pub prepare_chained_event-ReadsBack :
    (H : Material → String) (e : TransitionEvent) (n : ℕ) (prev : String) (p : PreparedChainedEvent)
    → prepare_chained_event H e n prev ≡ ok p
    → ReadsBack H e n prev p
unfolding prepare_chained_event
prepare_chained_event-ReadsBack H e n prev p h =
    let bare : RunReceipt = record (e.receipt_json) { chain = no_chain } in
    let digest =
      calculate_event_hash H e n prev (unhashed bare n prev) chain_version_1 chain_origin_native in
    let (_, _, h₁) = >>=-eq-ok (validate_receipt bare) _ h in
    let (u, r, h₂) = >>=-eq-ok (validate_receipt (hashed bare n prev digest)) _ h₁ in
    let (v, a, h₃) =
      >>=-eq-ok (validate_event_receipt_alignment e (hashed bare n prev digest)) _ h₂ in
    subst (ReadsBack H e n prev) (ok_injective (prepared_as bare n prev digest) p h₃)
      (prepared_as-ReadsBack H e n prev bare digest u v refl r a)
