-- ===== src/Estream/Delivery.antt =====
-- sub.go and filter.go: the delivery of a notification to the receivers of a subscription.
pub mod Laws
use restconf.Prelude.{
  ℕ, zero, suc, ◌+◌, Bool, true, false, ◌&&◌, ◌||◌, Option, none, some, List, [], ◌∷◌, ◌++◌,
  if◌then◌else◌, length,
}
use restconf.Text.{Bytes, codes, is_empty}
use restconf.Errors.{Error, new, Result, ok, err}
use restconf.Maps.{find, store, delete}
use restconf.Decimal.{inc64, format_int}
use restconf.Estream.{Closer, Filter, Stream, SubscriptionOptions}
use restconf.Estream.Subscription.{
  RecvState, disconnected, active, suspended, connecting, SubEventType, sub_suspended,
  sub_terminated, sub_completed, sub_modified, sub_resumed, sub_started, SubEvent, Effect, opened,
  closed, subscribed, notified, Run, panicked, ret, update_listeners, ReceiverEvent, ReceiverEntry,
  Subscription, no_filter, no_stream, no_options, new_subscription, add_receiver, remove_receiver,
  activate_receiver, reset,
}

module _ {Sel : Type 0} where
  is_nil_filter : Option (Sel → Option Sel) → Bool
  is_nil_filter none = true
  is_nil_filter (some _) = false

  -- Filter.Empty
  unfoldable pub empty : Filter Sel → Bool
  unfolding is_nil_filter
  empty f = is_empty f.name && is_nil_filter f.filter

  apply_filter : Option (Sel → Option Sel) → Sel → Run (Option Sel)
  apply_filter none event = panicked
  apply_filter (some f) event = ret (f event)

  -- `eventSel`: a filter with a name and no function is a call of nil
  unfoldable pub filter_event : Filter Sel → Sel → Run (Option Sel)
  unfolding apply_filter empty
  filter_event f event = if empty f then ret (some event) else apply_filter f.filter event

  exclude : ReceiverEntry Sel × List Effect → ReceiverEntry Sel × List Effect
  exclude (r, log) = (record r { excluded_event_records = inc64 r.excluded_event_records }, log)

  module _ (text : Error → Bytes) (listeners : List ℕ) (id : Bytes) where
    -- what the receiver answered
    after_receive : Option Error → ReceiverEntry Sel → List Effect → ReceiverEntry Sel × List Effect
    unfolding exclude
    after_receive none r log = (record r { sent_event_records = inc64 r.sent_event_records }, log)
    after_receive (some e) r log = exclude (activate_receiver listeners id r false (text e) log)

    offer :
        RecvState
        → ℕ
        → Option Sel
        → ReceiverEntry Sel
        → List Effect
        → ReceiverEntry Sel × List Effect
    unfolding after_receive exclude
    offer active time (some event) r log =
        after_receive (r.receiver (record { name = r.name; event_time = time; event = event })) r
          log
    offer _ time event r log = exclude (r, log)

    -- one round of the loop over s.Recievers
    unfoldable pub deliver_one :
        ℕ → Option Sel → ReceiverEntry Sel → List Effect → ReceiverEntry Sel × List Effect
    unfolding offer
    deliver_one time event r log = offer r.state time event r log

    unfoldable pub deliver :
        ℕ
        → Option Sel
        → List (Bytes × ReceiverEntry Sel)
        → List Effect
        → List (Bytes × ReceiverEntry Sel) × List Effect
    unfolding deliver_one
    deliver time event [] log = ([], log)
    deliver time event ((k, r) ∷ rs) log =
        let (r', log') = deliver_one time event r log in
        let (rs', log'') = deliver time event rs log' in ((k, r') ∷ rs', log'')

  deliver_filtered :
      (Error → Bytes)
      → List ℕ
      → ℕ
      → Run (Option Sel)
      → Subscription Sel
      → List Effect
      → Run (Subscription Sel × List Effect)
  deliver_filtered text listeners time panicked s log = panicked
  deliver_filtered text listeners time (ret event) s log =
      let (rs, log') = deliver text listeners s.id time event s.receivers log in
      ret (record s { receivers = rs }, log')

  -- The callback that Apply hands to notifySel.Notifications.
  unfoldable pub on_notification :
      (Error → Bytes)
      → List ℕ
      → ℕ
      → Sel
      → Subscription Sel
      → List Effect
      → Run (Subscription Sel × List Effect)
  unfolding deliver_filtered
  on_notification text listeners time event s log =
      deliver_filtered text listeners time (filter_event s.opts.filter event) s log
