-- ===== src/Estream/Subscription.antt =====
-- sub.go and recv.go: a subscription, its receivers, and what calls do outside.
use restconf.Prelude.{ℕ, Bool, true, false, Option, none, some, List, [], ◌∷◌, ◌++◌}
use restconf.Text.{Bytes, codes}
use restconf.Errors.{Error, new}
pub use restconf.Errors.{Run, panicked, ret}
use restconf.Maps.{find, store, delete}
use restconf.Estream.{Closer, Filter, Stream, SubscriptionOptions}

pub data RecvState : Type 0 where
  disconnected active suspended connecting : RecvState

pub data SubEventType : Type 0 where
  sub_suspended sub_terminated sub_completed sub_modified sub_resumed sub_started : SubEventType

pub data SubState : Type 0 where
  valid invalid concluded : SubState

-- `subscription` is the Id of the subscription that the event points to.
pub record SubEvent : Type 0 where
  pub event_id : SubEventType
  pub subscription : Bytes
  pub reason : Bytes

-- What a call does outside: streams opened, closers called, notifications subscribed to for a
-- subscription, and listeners called with an event.
pub data Effect : Type 0 where
  opened : Bytes → Effect
  closed : Closer → Effect
  subscribed : Bytes → Effect
  notified : ℕ → SubEvent → Effect

-- service.updateListeners: each listener in turn
unfoldable pub update_listeners : List ℕ → SubEvent → List Effect → List Effect
update_listeners [] e log = log
update_listeners (l ∷ ls) e log = update_listeners ls e (log ++ notified l e ∷ [])

module _ (Sel : Type 0) where
  pub record ReceiverEvent : Type 0 where
    pub name : Bytes
    pub event_time : ℕ
    pub event : Sel

  -- The counters are int64.
  pub record ReceiverEntry : Type 0 where
    pub name : Bytes
    pub state : RecvState
    pub excluded_event_records : ℕ
    pub sent_event_records : ℕ
    pub receiver : ReceiverEvent → Option Error

  pub record Subscription : Type 0 where
    pub id : Bytes
    pub closer : Option Closer
    pub opts : SubscriptionOptions Sel
    pub configured_subscription_state : SubState
    pub receivers : List (Bytes × ReceiverEntry)

module _ {Sel : Type 0} where
  abbrev pub no_filter : Filter Sel
  no_filter = record { name = []; filter = none }

  abbrev pub no_stream : Stream Sel
  no_stream = record {
    name = [];
    description = [];
    replay_support = false;
    replay_log_creation_time = 0;
    replay_log_aged_time = 0;
    open_stream = none;
  }

  abbrev pub no_options : SubscriptionOptions Sel
  no_options = record {
    filter = no_filter;
    stream = no_stream;
    replay_start_time = 0;
    replay_start_time_revision = 0;
    stop_time = 0;
    purpose = [];
    source_address = [];
  }

  unfoldable pub new_subscription : Bytes → Subscription Sel
  new_subscription id = record {
    id = id;
    closer = none;
    opts = no_options;
    configured_subscription_state = valid;
    receivers = [];
  }

  insert_receiver :
      Option (ReceiverEntry Sel)
      → Bytes
      → (ReceiverEvent Sel → Option Error)
      → Subscription Sel
      → Option Error × Subscription Sel
  insert_receiver (some _) name receiver s = (some (new (codes "receiver already exists")), s)
  insert_receiver none name receiver s =
      let entry : ReceiverEntry Sel = record {
        name = name;
        state = active;
        excluded_event_records = 0;
        sent_event_records = 0;
        receiver = receiver;
      } in
      (none, record s { receivers = store s.receivers name entry })

  unfoldable pub add_receiver :
      Bytes
      → (ReceiverEvent Sel → Option Error)
      → Subscription Sel
      → Option Error × Subscription Sel
  unfolding insert_receiver
  add_receiver name receiver s = insert_receiver (find s.receivers name) name receiver s

  unfoldable pub remove_receiver : Bytes → Subscription Sel → Option Error × Subscription Sel
  remove_receiver name s = (none, record s { receivers = delete s.receivers name })

  -- s.activateReceiver: the entry's new state, and the listeners told
  unfoldable pub activate_receiver :
      List ℕ
      → Bytes
      → ReceiverEntry Sel
      → Bool
      → Bytes
      → List Effect
      → ReceiverEntry Sel × List Effect
  activate_receiver listeners id r true reason log = (
    record r { state = active },
    update_listeners listeners (record { event_id = sub_resumed; subscription = id; reason = [] })
        log,
  )
  activate_receiver listeners id r false reason log = (
    record r { state = suspended },
    update_listeners listeners
        (record { event_id = sub_suspended; subscription = id; reason = reason }) log,
  )

  -- receiverEntry.Reset
  unfoldable pub reset :
      List ℕ → Bytes → ReceiverEntry Sel → List Effect → ReceiverEntry Sel × List Effect
  unfolding activate_receiver
  reset listeners id r log =
      activate_receiver listeners id
        (record r { excluded_event_records = 0; sent_event_records = 0 }) true [] log
