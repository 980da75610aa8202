-- ===== src/Commit/Extends.antt =====
-- Each transaction of database.py extends the event chain of the database.
use governed_signal_to_conte.Base.{
  List, Result, String, [], ap, arith, err, ok, ok_injective, refl, subst, sym, ◌++◌, ◌>>=◌, ◌∙◌,
  ◌∷◌, ◌≡◌,
}
use governed_signal_to_conte.Chain.Append.{insert_transition_event}
use governed_signal_to_conte.Chain.Events.{PreparedChainedEvent}
use governed_signal_to_conte.Chain.Invariant.{IsChain, insert_transition_event-IsChain}
use governed_signal_to_conte.Chain.Material.{ChainEntry, EventStore, Material}
use governed_signal_to_conte.Chain.Roundtrip.{prepared_entry}
use governed_signal_to_conte.Commit.Frame.{append_event-frame, insert_authenticated_operation-frame}
use governed_signal_to_conte.Commit.Insert.{append_event, insert_authenticated_operation}
use governed_signal_to_conte.Database.{Database}
use governed_signal_to_conte.Receipts.{TransitionEvent}
use governed_signal_to_conte.Tables.{AuthenticatedOperation, Outcome}

-- The policy tables of two databases agree.
pub record SamePolicy (db db' : Database) : Type 0 where
  pub grants : db'.capability_grants ≡ db.capability_grants
  pub revocations : db'.capability_revocations ≡ db.capability_revocations
  pub policy : db'.capability_policy_state ≡ db.capability_policy_state

-- The chain of one database is continued by another.
pub record Extends (H : Material → String) (db db' : Database) : Type 0 where
  pub chain : IsChain H db.store → IsChain H db'.store
  pub added :
      (new : List ChainEntry) × (IsChain H db.store → db'.store.entries ≡ db.store.entries ++ new)

++_nil : {A : Type 0} (xs : List A) → xs ++ [] ≡ xs
++_nil [] = refl
++_nil (x ∷ xs) = ap (λ ys. x ∷ ys) (++_nil xs)

++_assoc : {A : Type 0} (xs ys zs : List A) → (xs ++ ys) ++ zs ≡ xs ++ (ys ++ zs)
++_assoc [] ys zs = refl
++_assoc (x ∷ xs) ys zs = ap (λ ws. x ∷ ws) (++_assoc xs ys zs)

pub same_store-Extends :
    (H : Material → String) (db db' : Database) → db'.store ≡ db.store → Extends H db db'
same_store-Extends H db db' e = record {
  chain = λ w. subst (IsChain H) (sym e) w;
  added = ([], λ w. ap (λ s. s.entries) e ∙ sym (++_nil db.store.entries));
}

pub Extends-trans :
    (H : Material → String) (a b c : Database) → Extends H a b → Extends H b c → Extends H a c
Extends-trans H a b c x y = record {
  chain = λ w. y.chain (x.chain w);
  added = (
    x.added.0 ++ y.added.0,
    λ w.
        y.added.1 (x.chain w)
        ∙ ap (λ es. es ++ y.added.0) (x.added.1 w)
        ∙ ++_assoc a.store.entries x.added.0 y.added.0,
  );
}

with_store-Extends :
    (H : Material → String) (e : TransitionEvent) (db db' : Database)
    (m : Result (PreparedChainedEvent × EventStore))
    → insert_transition_event H e db.store ≡ m
    → (m >>= λ pair. ok (record db { store = pair.1 })) ≡ ok db'
    → Extends H db db'
with_store-Extends H e db db' (err x) r h = absurd (ground arith)
with_store-Extends H e db db' (ok (p, s)) r h =
    subst (Extends H db) (ok_injective (record db { store = s }) db' h) (record {
      chain = λ w. (insert_transition_event-IsChain H e p db.store s w r).0;
      added = (
        prepared_entry e.event_id p ∷ [],
        λ w. (insert_transition_event-IsChain H e p db.store s w r).2,
      );
    })

pub append_event-Extends :
    (H : Material → String) (e : TransitionEvent) (db db' : Database)
    → append_event H e db ≡ ok db'
    → Extends H db db'
unfolding append_event
append_event-Extends H e db db' h =
    with_store-Extends H e db db' (insert_transition_event H e db.store) refl h

-- A change that continues the chain and leaves the policy tables alone.
pub record Kept (H : Material → String) (db db' : Database) : Type 0 where
  pub extends : Extends H db db'
  pub policy : SamePolicy db db'

pub Kept-trans : (H : Material → String) (a b c : Database) → Kept H a b → Kept H b c → Kept H a c
Kept-trans H a b c x y = record {
  extends = Extends-trans H a b c x.extends y.extends;
  policy = record {
    grants = y.policy.grants ∙ x.policy.grants;
    revocations = y.policy.revocations ∙ x.policy.revocations;
    policy = y.policy.policy ∙ x.policy.policy;
  };
}

pub same_tables-Kept :
    (H : Material → String) (db db' : Database)
    → db'.store ≡ db.store
    → SamePolicy db db'
    → Kept H db db'
same_tables-Kept H db db' e s = record { extends = same_store-Extends H db db' e; policy = s }

-- The same, for a change that is known as a whole.
pub change-Kept :
    (H : Material → String) (db db' new : Database)
    → db' ≡ new
    → new.store ≡ db.store
    → SamePolicy db new
    → Kept H db db'
change-Kept H db db' new e s p = subst (Kept H db) (sym e) (same_tables-Kept H db new s p)

pub unchanged_policy : (db : Database) → SamePolicy db db
unchanged_policy db = record { grants = refl; revocations = refl; policy = refl }

pub append_event-Kept :
    (H : Material → String) (e : TransitionEvent) (db db' : Database)
    → append_event H e db ≡ ok db'
    → Kept H db db'
append_event-Kept H e db db' h =
    let f = append_event-frame H e db db' h in
    record {
      extends = append_event-Extends H e db db' h;
      policy = record {
        grants = ap (λ x. x.capability_grants) f;
        revocations = ap (λ x. x.capability_revocations) f;
        policy = ap (λ x. x.capability_policy_state) f;
      };
    }

pub insert_authenticated_operation-Kept :
    (H : Material → String) (o : AuthenticatedOperation) (event_id : String) (outcome : Outcome)
    (db db' : Database)
    → insert_authenticated_operation o event_id outcome db ≡ ok db'
    → Kept H db db'
insert_authenticated_operation-Kept H o event_id outcome db db' h =
    change-Kept H db db' _ (insert_authenticated_operation-frame o event_id outcome db db' h).1 refl
      (record { grants = refl; revocations = refl; policy = refl })
