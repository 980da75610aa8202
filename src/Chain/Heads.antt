-- ===== src/Chain/Heads.antt =====
-- The head and the activation checkpoint that `verify_integrity` (integrity.py) compares.
use governed_signal_to_conte.Base.{
  Option, String, arith, eq_iff, nat_eq, none, opt_eq_refl, opt_eq→eq, refl, some, true, ℕ, ◌≡◌,
}
use governed_signal_to_conte.Chain.Material.{ChainState}
use governed_signal_to_conte.Chain.Rows.{has_metadata}
use governed_signal_to_conte.Chain.Verifier.{
  NativeRow, checkpoint_matches, head_matches, row_sequence,
}

-- The head of the chain names the row with the highest number, or the activation checkpoint.
abbrev pub IsHead : ChainState → String → Option NativeRow → Type 0
IsHead c activation_hash none =
    (c.head_sequence ≡ 0) × (c.head_event_id ≡ none) × (c.head_event_hash ≡ activation_hash)
IsHead c activation_hash (some tail) =
    (c.head_sequence ≡ row_sequence tail)
    × (c.head_event_id ≡ some tail.event.event_id)
    × (c.head_event_hash ≡ tail.entry.event_hash)

pub head_matches-IsHead :
    (c : ChainState) (h : String) (t : Option NativeRow) → head_matches c h t ≡ true → IsHead c h t
unfolding head_matches
head_matches-IsHead c h none e = (
  ground arith,
  opt_eq→eq c.head_event_id none (ground arith),
  (eq_iff c.head_event_hash h).0 (ground arith),
)
head_matches-IsHead c h (some t) e = (
  ground arith,
  opt_eq→eq c.head_event_id (some t.event.event_id) (ground arith),
  (eq_iff c.head_event_hash t.entry.event_hash).0 (ground arith),
)

pub IsHead-head_matches :
    (c : ChainState) (h : String) (t : Option NativeRow) → IsHead c h t → head_matches c h t ≡ true
unfolding head_matches
IsHead-head_matches c h none (n, i, e) =
    let hash = (eq_iff c.head_event_hash h).1 e in rw (n, i, hash, opt_eq_refl none) refl
IsHead-head_matches c h (some t) (n, i, e) =
    let hash = (eq_iff c.head_event_hash t.entry.event_hash).1 e in
    let same : nat_eq c.head_sequence (row_sequence t) ≡ true = ground arith in
    rw (same, i, hash, opt_eq_refl (some t.event.event_id)) refl

-- The activation checkpoint, computed again from the events without a chain entry.
pub record IsCheckpoint (c : ChainState) (legacy_event_count : ℕ) (activation_hash : String)
    : Type 0 where
  pub metadata : has_metadata c ≡ true
  pub legacy_counted : c.legacy_event_count ≡ legacy_event_count
  pub activation : c.activation_hash ≡ activation_hash

pub checkpoint_matches-IsCheckpoint :
    (c : ChainState) (n : ℕ) (h : String) → checkpoint_matches c n h ≡ true → IsCheckpoint c n h
unfolding checkpoint_matches
checkpoint_matches-IsCheckpoint c n h e = record {
  metadata = ground arith;
  legacy_counted = ground arith;
  activation = (eq_iff c.activation_hash h).0 (ground arith);
}

pub IsCheckpoint-checkpoint_matches :
    (c : ChainState) (n : ℕ) (h : String) → IsCheckpoint c n h → checkpoint_matches c n h ≡ true
unfolding checkpoint_matches
IsCheckpoint-checkpoint_matches c n h p =
    let same : nat_eq c.legacy_event_count n ≡ true = let l = p.legacy_counted in ground arith in
    rw (p.metadata, same, (eq_iff c.activation_hash h).1 p.activation) refl
