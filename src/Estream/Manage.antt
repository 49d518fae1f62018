-- ===== src/Estream/Manage.antt =====
-- estream/api.go: the management of a publisher's service, as ietf-subscribed-notifications has it.
pub mod Notices
use restconf.Prelude.{ℕ, Bool, true, false, Option, none, some, List, [], ◌∷◌, ◌++◌, if◌then◌else◌}
use restconf.Text.{Bytes, codes, beq}
use restconf.Errors.{Error, Result, ok, err}
use restconf.Estream.{Filter, Stream, SubscriptionOptions}
use restconf.Estream.Subscription.{
  SubEventType, sub_suspended, sub_terminated, sub_completed, sub_modified, sub_resumed,
  sub_started, SubEvent, Subscription,
}
use restconf.Estream.Service.{Service, on_event}

-- What the node of Manage hands out for a child: a node of package nodeutil over one of the maps of
-- the service, or what the package does by itself.
pub data ServiceChild (Sel : Type 0) : Type 0 where
  of_subscriptions : List (Bytes × Subscription Sel) → ServiceChild Sel
  of_filters : List (Bytes × Filter Sel) → ServiceChild Sel
  of_streams : List (Bytes × Stream Sel) → ServiceChild Sel
  do_child : ServiceChild Sel

-- What a field of a node gets: a text, nothing, or what the base gives.
pub data FieldAnswer : Type 0 where
  text : Bytes → FieldAnswer
  nothing : FieldAnswer
  of_base : FieldAnswer

-- The node of a notification of a subscription's event.
pub record EventNode : Type 0 where
  pub object : Bytes
  pub reason : Bytes

-- A listener on a service, with the type of event that it is for.
pub record EventListener : Type 0 where
  pub listener : ℕ
  pub etype : SubEventType

same_type : SubEventType → SubEventType → Bool
same_type sub_suspended sub_suspended = true
same_type sub_terminated sub_terminated = true
same_type sub_completed sub_completed = true
same_type sub_modified sub_modified = true
same_type sub_resumed sub_resumed = true
same_type sub_started sub_started = true
same_type _ _ = false

-- OnRead: a zero time has no value; `is_time` tells that the type is *time.Time
unfoldable pub has_value : (is_time is_zero : Bool) → Bool
has_value true true = false
has_value _ _ = true

-- OnField of api.subscription
unfoldable pub subscription_field : (id ident : Bytes) → FieldAnswer
subscription_field id ident =
    if beq ident (codes "subscription-id")
    then text id
    else if beq ident (codes "id")
    then text id
    else if beq ident (codes "replay-start-time-revision")
    then nothing
    else of_base

-- api.event, and its OnField
unfoldable pub event : SubEvent → EventNode
event e = record { object = e.subscription; reason = e.reason }

unfoldable pub event_field : EventNode → (ident : Bytes) → FieldAnswer
event_field n ident =
    if beq ident (codes "replay-previous-event-time")
    then nothing
    else if beq ident (codes "reason")
    then text n.reason
    else of_base

-- OnNotify: the type of event that a notification is of
unfoldable pub notification_type : (ident : Bytes) → Option SubEventType
notification_type ident =
    if beq ident (codes "subscription-suspended")
    then some sub_suspended
    else if beq ident (codes "subscription-terminated")
    then some sub_terminated
    else if beq ident (codes "replay-completed")
    then some sub_completed
    else if beq ident (codes "subscription-modified")
    then some sub_modified
    else if beq ident (codes "subscription-resumed")
    then some sub_resumed
    else if beq ident (codes "subscription-started")
    then some sub_started
    else none

-- what a listener of api.eventListener sends for an event
unfoldable pub sends : SubEventType → SubEvent → Option EventNode
unfolding same_type event
sends etype e = if same_type etype e.event_id then some (event e) else none

module _ {Sel : Type 0} where
  -- OnChild
  unfoldable pub service_child : Service Sel → (ident : Bytes) → ServiceChild Sel
  service_child s ident =
      if beq ident (codes "subscriptions")
      then of_subscriptions s.subscriptions
      else if beq ident (codes "filters")
      then of_filters s.filters
      else if beq ident (codes "streams")
      then of_streams s.streams
      else do_child

  unfoldable pub listening :
      ℕ → Option SubEventType → Service Sel → Option EventListener × Service Sel
  listening l none s = (none, s)
  listening l (some etype) s = (some (record { listener = l; etype = etype }), on_event l s)

  -- OnNotify, with the number that the new listener gets; `none` is a nil closer
  unfoldable pub on_notify : ℕ → (ident : Bytes) → Service Sel → Option EventListener × Service Sel
  unfolding listening notification_type
  on_notify l ident s = listening l (notification_type ident) s
