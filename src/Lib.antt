-- ===== src/Lib.antt =====
-- The governed signal-to-content workflow (src/governed_signal_to_content).
--
-- The program turns a signal into a content packet. A candidate and its packet pass through the
-- states of a workflow; each change is a transaction on one SQLite database that also appends an
-- event to a hash-linked chain. Approval, rejection and release need a signed operation whose
-- principal has an active grant for exactly these states and the packet's own scope; grants are
-- administered by signed operations of their own.
--
-- Files, and the code that they are about:
--   Base            helpers: Boolean tests, rows of a table, exceptions as values
--   Workflow        WorkflowState (models.py); TRANSITIONS and validate_transition
--                   (state_machine.py); AUTHORITY_SENSITIVE_STATE_PAIRS (database.py)
--   Scope           PacketScope and its validator (models.py), on code points
--   Models          capabilities, reasons, AuthorizationDecision (models.py) and the capabilities
--                   of the operations (authorization.py)
--   Tables          the rows of the SQLite schema (database.py)
--   Json            decoded JSON and sanitize_for_receipt (receipts.py)
--   Receipts        RunReceipt with its validators (models.py), new_receipt and
--                   transition_event_from_receipt (receipts.py)
--   Chain           event hashing, alignment and the verifier of the canonical chain (integrity.py),
--                   insert_transition_event (database.py)
--   Database        the tables together, and `connect`: an exception rolls back (database.py)
--   Authorization   the decisions and CapabilityPolicyEvaluator.evaluate (authorization.py)
--   Commit          the transactions of database.py: Insert the INSERT helpers, Progress the
--                   transitions without authority, Authority _commit_authority_transition,
--                   Rejection record_authenticated_authorization_rejection, Policy
--                   _commit_capability_policy_operation, Envelope the validator of its request
--                   (models.py), Steps the sequences of transactions; the others hold lemmas
--   Projection      project_transition_event (receipts.py) on the log of decoded lines, and
--                   mark_transition_event_projected (database.py)
--   Packets         recompute_packet_manifest (packets.py), on a directory as a value
--   Duplicates      the duplicate check (deduplication.py)
--   Effects         external_effects.py and effect_protocol.py: Tables the rows, Envelopes the
--                   validator of a result (models.py), Rows the INSERT statements, Keys the signature
--                   of a result, Record the event and its projection, Release and Request the
--                   evidence and the values of a request, Create create_external_effect_request,
--                   Claim claim_external_effect, Ingest record_signed_executor_result, Register and
--                   Management the registration of bindings and executors, Mediate the mediated
--                   result of a request, Lifecycle the abstract lifecycle of an effect, Steps the
--                   sequences of calls; the others hold lemmas and theorems
--   Authentication  authenticate_authority_request (authentication.py): Operations the signed
--                   operation and its rows, Verify the checks; the others hold theorems
--   Scenario, Examples   a small workspace, and the theorems applied to it
--   EffectScenario, EffectExamples   the same for external effects and packets
--   AuthenticationExamples, DuplicateExamples   the same for authentication and duplicates
--
-- A table is the list of its rows in the order of insertion. A transaction takes a database to a
-- result and a new database, or to an exception; `connect` then keeps the old database. Columns
-- that hold JSON hold the decoded value. The function `canonical_json_hash` (SHA-256 of a canonical
-- JSON text) is a parameter of every definition that uses it, on the material that is hashed; the
-- event factories, which are closures of the callers, are arguments. Keys, signatures and base64
-- are a record of functions (Effects.Keys), and so are the encodings of a signed operation and the
-- validation of its dump by pydantic (Authentication.Verify). Run ids and times come in as
-- arguments. No definition needs fuel: loops run over finite lists.
--
-- Not modelled: the command line, the files of packets and evidence, key generation, schema
-- migration, and the JSON, regular-expression, Ed25519 and SQLite libraries, which are input
-- and output or third-party code; the wrappers of the transactions in state_machine.py, the
-- mediator of the workflow's own transitions, the executor's own process, the normalization and
-- qualification of candidates, the reconciliation loop of the receipt log, and the verifier of
-- the policy, the external effects and the projection.
pub mod Base
pub mod Workflow
pub mod Scope
pub mod Models
pub mod Tables
pub mod Json
pub mod Receipts
pub mod Chain
pub mod Database
pub mod Authorization
pub mod Commit
pub mod Projection
pub mod Authentication
pub mod Packets
pub mod Duplicates
pub mod Effects
pub mod Scenario
pub mod EffectScenario
pub mod AuthenticationExamples
pub mod EffectExamples
pub mod Examples
pub mod DuplicateExamples
