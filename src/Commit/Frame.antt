-- ===== src/Commit/Frame.antt =====
-- What the parts of a transaction leave alone (database.py).
use governed_signal_to_conte.Base.{Result, String, [], arith, err, false, ok, ◌++◌, ◌>>=◌, ◌∷◌, ◌≡◌}
use governed_signal_to_conte.Chain.Append.{insert_transition_event}
use governed_signal_to_conte.Chain.Events.{PreparedChainedEvent}
use governed_signal_to_conte.Chain.Material.{EventStore, Material}
use governed_signal_to_conte.Commit.Insert.{
  append_event, consumed_row, has_operation, insert_authenticated_operation,
}
use governed_signal_to_conte.Database.{Database}
use governed_signal_to_conte.Receipts.{TransitionEvent}
use governed_signal_to_conte.Tables.{AuthenticatedOperation, Outcome}

with_store :
    (m : Result (PreparedChainedEvent × EventStore)) (db db' : Database)
    → (m >>= λ pair. ok (record db { store = pair.1 })) ≡ ok db'
    → db' ≡ record db { store = db'.store }
with_store (ok (p, s)) db db' h = ground arith
with_store (err e) db db' h = cc

module _ (H : Material → String) where
  -- An appended event changes the event tables only.
  pub append_event-frame :
      (e : TransitionEvent) (db db' : Database)
      → append_event H e db ≡ ok db'
      → db' ≡ record db { store = db'.store }
  unfolding append_event
  append_event-frame e db db' h = with_store (insert_transition_event H e db.store) db db' h

-- A consumed operation is new, and goes to the end of its table.
pub insert_authenticated_operation-frame :
    (o : AuthenticatedOperation) (event_id : String) (outcome : Outcome) (db db' : Database)
    → insert_authenticated_operation o event_id outcome db ≡ ok db'
    → (has_operation db o.operation_id ≡ false)
      × (db' ≡ record db {
        authenticated_operations =
            db.authenticated_operations ++ consumed_row o event_id outcome ∷ [];
      })
unfolding insert_authenticated_operation
insert_authenticated_operation-frame o event_id outcome db db' h = ground arith
