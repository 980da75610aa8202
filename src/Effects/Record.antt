-- ===== src/Effects/Record.antt =====
-- How an operation on external effects records its canonical event (external_effects.py), and the
-- projection of that event after the transaction.
use governed_signal_to_conte.Base.{
  List, Option, Result, String, err, if◌then◌else◌, none, ok, some, ◌==◌, ◌>>=◌,
}
use governed_signal_to_conte.Chain.Material.{Material}
use governed_signal_to_conte.Commit.Insert.{append_event}
use governed_signal_to_conte.Effects.Tables.{Ledger}
use governed_signal_to_conte.Projection.{project_transition_event}
use governed_signal_to_conte.Receipts.Events.{Stamp, TransitionEvent, transition_event_from_receipt}
use governed_signal_to_conte.Receipts.Fields.{RunReceipt}

-- The tables and the receipt log.
pub record EffectWorkspace : Type 0 where
  pub ledger : Ledger
  pub receipt_log : List RunReceipt

-- The values of `uuid4`, `utc_now` and `execution_identity`.
pub record Host : Type 0 where
  pub hex : String
  pub event_id : String
  pub stamp : Stamp
  pub execution_identity : String
  pub projected_at_utc : String

-- `asserted_actor or fallback`
abbrev pub actor_or : Option String → String → String
actor_or none fallback = fallback
actor_or (some actor) fallback = if actor == "" then fallback else actor

-- `transition_event_from_receipt`, with the event's own id in place of the run id.
unfoldable pub effect_event : String → RunReceipt → String → String → String → TransitionEvent
unfolding transition_event_from_receipt
effect_event event_id receipt target_type target_id governed_hash =
    record (transition_event_from_receipt receipt target_type target_id (some governed_hash)) {
      event_id = event_id;
      receipt_json = record receipt { run_id = event_id };
    }

abbrev pub outcome_with : {A : Type 0} → A → Result RunReceipt → Result A
outcome_with a (ok receipt) = ok a
outcome_with a (err e) = err e

module _ (canonical_json_hash : Material → String) where
  -- `insert_transition_event` on all tables.
  unfoldable pub append_effect_event : TransitionEvent → Ledger → Result Ledger
  unfolding append_event
  append_effect_event event l = do
    database ← append_event canonical_json_hash event l.database
    ok (record l { database = database })

  -- `project_transition_event` on all tables; its receipt is dropped.
  unfoldable pub project_effect_event :
      {A : Type 0} → String → String → A → EffectWorkspace → Result A × EffectWorkspace
  unfolding project_transition_event
  project_effect_event now event_id a w =
      let (outcome, v) =
        project_transition_event canonical_json_hash now event_id
          (record { store = w.ledger.database.store; receipt_log = w.receipt_log }) in
      (
        outcome_with a outcome,
        record {
          ledger = record (w.ledger) { database = record (w.ledger.database) { store = v.store } };
          receipt_log = v.receipt_log;
        },
      )
