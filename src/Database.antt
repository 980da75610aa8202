-- ===== src/Database.antt =====
-- The state of the program (database.py): every table that the modelled operations read or write.
-- A transaction is a function of the database that raises or returns the new one; `connect` rolls
-- back on every exception, so a transaction that raises leaves the database as it was.
use governed_signal_to_conte.Base.{
  Error, List, Option, Result, Result-cases, err, inl, inr, ok, refl, ◌≡◌,
}
use governed_signal_to_conte.Chain.Material.{EventStore}
use governed_signal_to_conte.Tables.{
  Approval, Candidate, CapabilityGrant, CapabilityRevocation, ConsumedOperation, Packet,
  PolicyState, TrustedPrincipal,
}

pub record Database : Type 0 where
  pub candidates : List Candidate
  pub packets : List Packet
  pub approvals : List Approval
  pub trusted_principals : List TrustedPrincipal
  pub authenticated_operations : List ConsumedOperation
  pub capability_grants : List CapabilityGrant
  pub capability_revocations : List CapabilityRevocation
  pub capability_policy_state : Option PolicyState
  pub store : EventStore

-- The body of a `with connect(…)` block.
abbrev pub Transaction : Type 0 → Type 0
Transaction A = Database → Result (A × Database)

-- A `with connect(…)` block as its caller sees it: the outcome, and the database afterwards.
abbrev pub connect : {A : Type 0} → Transaction A → Database → Result A × Database
connect body db = elim (body db) [ ok (a, db') ↦ (ok a, db') | err e ↦ (err e, db) ]

-- A transaction that cannot end normally leaves the database as it was.
pub connect-rollback :
    {A : Type 0} (body : Transaction A) (db : Database)
    → ((a : A) (db' : Database) → body db ≡ ok (a, db') → ⊥)
    → (e : Error) × (connect body db ≡ (err e, db))
connect-rollback body db never = elim (Result-cases (body db)) [
  | inl ((a, db'), h) ↦ absurd (never a db' h)
  | inr (e, h) ↦ (e, rw (h, connect) refl)
]
