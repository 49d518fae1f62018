-- ===== src/Estream/Service.antt =====
-- service.go: the named filters, streams and subscriptions of a publisher.
pub mod Ids
pub mod Failures
use restconf.Prelude.{
  ℕ, zero, suc, ◌+◌, Bool, true, false, ◌&&◌, ◌||◌, Option, none, some, List, [], ◌∷◌, ◌++◌,
  if◌then◌else◌, length,
}
use restconf.Text.{Bytes, codes, is_empty}
use restconf.Errors.{Error, new, Result, ok, err}
use restconf.Maps.{find, store, delete}
use restconf.Decimal.{inc64, format_int}
use restconf.Estream.{Closer, Filter, Stream, SubscriptionOptions}
use restconf.Estream.Subscription.{
  RecvState, disconnected, active, suspended, connecting, SubEventType, sub_suspended,
  sub_terminated, sub_completed, sub_modified, sub_resumed, sub_started, SubEvent, Effect, opened,
  closed, subscribed, notified, Run, panicked, ret, update_listeners, ReceiverEvent, ReceiverEntry,
  Subscription, no_filter, no_stream, no_options, new_subscription, add_receiver, remove_receiver,
  activate_receiver, reset,
}
use restconf.Errors.{not_found}
use restconf.Estream.Apply.{apply}

-- A listener is a number, and the log shows when it is called.
pub record Service (Sel : Type 0) : Type 0 where
  pub subscriptions : List (Bytes × Subscription Sel)
  pub filters : List (Bytes × Filter Sel)
  pub streams : List (Bytes × Stream Sel)
  pub listeners : List ℕ
  pub subcription_counter : ℕ
  pub log : List Effect

pub record EstablishRequest : Type 0 where
  pub stream : Bytes
  pub stream_filter_name : Bytes
  pub replay_start_time : ℕ
  pub stop_time : ℕ

pub record ModifyRequest : Type 0 where
  pub subscription_id : Bytes
  pub stream_filter_name : Bytes
  pub stop_time : ℕ

module _ {Sel : Type 0} where
  unfoldable pub new_service : Service Sel
  new_service = record {
    subscriptions = [];
    filters = [];
    streams = [];
    listeners = [];
    subcription_counter = 100;
    log = [];
  }

  unfoldable pub add_filter : Filter Sel → Service Sel → Service Sel
  add_filter f s = record s { filters = store s.filters f.name f }

  unfoldable pub add_stream : Stream Sel → Service Sel → Service Sel
  add_stream stream s = record s { streams = store s.streams stream.name stream }

  -- onEvent, without the handle to take the listener off
  unfoldable pub on_event : ℕ → Service Sel → Service Sel
  on_event l s = record s { listeners = s.listeners ++ l ∷ [] }

  -- nextSubId: the id, and the counter one further
  unfoldable pub next_sub_id : Service Sel → Bytes × Service Sel
  next_sub_id s = (
    format_int s.subcription_counter,
    record s { subcription_counter = inc64 s.subcription_counter },
  )

  with_filter :
      Option (Filter Sel) → Bytes → SubscriptionOptions Sel → Result (SubscriptionOptions Sel)
  with_filter none name opts = err (not_found (codes "filter ") (codes " " ++ name))
  with_filter (some f) name opts = ok (record opts { filter = f })

  unfoldable pub update_filter :
      Service Sel → Bytes → SubscriptionOptions Sel → Result (SubscriptionOptions Sel)
  unfolding with_filter
  update_filter s filter_name opts =
      if is_empty filter_name
      then ok (record opts { filter = no_filter })
      else with_filter (find s.filters filter_name) filter_name opts

  with_stream :
      Option (Stream Sel) → Bytes → SubscriptionOptions Sel → Result (SubscriptionOptions Sel)
  with_stream none name opts = err (not_found (codes "stream ") (codes " " ++ name))
  with_stream (some stream) name opts = ok (record opts { stream = stream })

  unfoldable pub update_stream :
      Service Sel → Bytes → SubscriptionOptions Sel → Result (SubscriptionOptions Sel)
  unfolding with_stream
  update_stream s stream_name opts =
      if is_empty stream_name
      then ok (record opts { stream = no_stream })
      else with_stream (find s.streams stream_name) stream_name opts

  -- KillSubscription and DeleteSubsccription do nothing.
  unfoldable pub kill_subscription : Bytes → Service Sel → Option Error × Service Sel
  kill_subscription sub_id s = (none, s)

  unfoldable pub delete_subsccription : Bytes → Service Sel → Option Error × Service Sel
  delete_subsccription sub_id s = (none, s)

module _ {Sel : Type 0} (notifications : Sel → ℕ → Option Closer × Option Error) where
  -- what Apply answered in EstablishSubscription: `none` for the error is a subscription
  established :
      Run (Option Error × Subscription Sel × List Effect)
      → Service Sel
      → Run (Result Bytes × Service Sel)
  established panicked s = panicked
  established (ret (some e, sub, log)) s = ret (err e, record s { log = log })
  established (ret (none, sub, log)) s =
      let event : SubEvent = record {
        event_id = sub_started;
        subscription = sub.id;
        reason = [];
      } in
      ret (
        ok sub.id,
        record s {
          subscriptions = store s.subscriptions sub.id sub;
          log = update_listeners s.listeners event log;
        },
      )

  apply_new :
      Result (SubscriptionOptions Sel) → Bytes → Service Sel → Run (Result Bytes × Service Sel)
  unfolding established
  apply_new (err e) id s = ret (err e, s)
  apply_new (ok opts) id s = established (apply notifications opts (new_subscription id) s.log) s

  choose_stream :
      Result (SubscriptionOptions Sel)
      → Bytes
      → Bytes
      → Service Sel
      → Run (Result Bytes × Service Sel)
  unfolding apply_new
  choose_stream (err e) stream id s = ret (err e, s)
  choose_stream (ok opts) stream id s = apply_new (update_stream s stream opts) id s

  -- The subscription is returned by its id.
  unfoldable pub establish_subscription :
      EstablishRequest → Service Sel → Run (Result Bytes × Service Sel)
  unfolding choose_stream
  establish_subscription req s =
      let (id, s') = next_sub_id s in
      choose_stream (update_filter s' req.stream_filter_name no_options) req.stream id s'

  -- what Apply answered in ModifySubscription; the subscription object has changed in any case
  modified :
      Run (Option Error × Subscription Sel × List Effect)
      → Bytes
      → Service Sel
      → Run (Option Error × Service Sel)
  modified panicked key s = panicked
  modified (ret (some e, sub, log)) key s =
      ret (some e, record s { subscriptions = store s.subscriptions key sub; log = log })
  modified (ret (none, sub, log)) key s =
      let event : SubEvent = record {
        event_id = sub_modified;
        subscription = sub.id;
        reason = [];
      } in
      ret (
        none,
        record s {
          subscriptions = store s.subscriptions key sub;
          log = update_listeners s.listeners event log;
        },
      )

  apply_again :
      Result (SubscriptionOptions Sel)
      → Bytes
      → Subscription Sel
      → Service Sel
      → Run (Option Error × Service Sel)
  unfolding modified
  apply_again (err e) key sub s = ret (some e, s)
  apply_again (ok opts) key sub s = modified (apply notifications opts sub s.log) key s

  modify_found :
      Option (Subscription Sel) → ModifyRequest → Service Sel → Run (Option Error × Service Sel)
  unfolding apply_again
  modify_found none req s =
      ret (some (not_found (codes "subscription ") (codes " " ++ req.subscription_id)), s)
  modify_found (some sub) req s =
      let opts = record (sub.opts) { stop_time = req.stop_time } in
      apply_again (update_filter s req.stream_filter_name opts) req.subscription_id sub s

  unfoldable pub modify_subscription :
      ModifyRequest → Service Sel → Run (Option Error × Service Sel)
  unfolding modify_found
  modify_subscription req s = modify_found (find s.subscriptions req.subscription_id) req s
