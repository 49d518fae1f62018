-- ===== src/Estream/Service/Failures.antt =====
-- What requests to the service do step by step, and where they fail.
use restconf.Prelude.{ℕ, ◌≡◌, Option, some, [], ◌∷◌, ◌++◌, length}
use restconf.Text.{Bytes, is_empty}
use restconf.Errors.{Error, Result, ok, err}
use restconf.Maps.{find, store}
use restconf.Estream.{Closer, SubscriptionOptions}
use restconf.Estream.Subscription.{
  ret, panicked, opened, closed, Subscription, new_subscription, no_options,
}
use restconf.Estream.Apply.{apply}
use restconf.Estream.Service.{
  Service, EstablishRequest, ModifyRequest, next_sub_id, update_filter, update_stream,
  establish_subscription, modify_subscription,
}

module _ {Sel : Type 0} where
  -- The subscription of a request that succeeds.
  abbrev pub started : SubscriptionOptions Sel → Bytes → Option Closer → Subscription Sel
  started opts id closer = record (new_subscription id) { opts = opts; closer = closer }

module _ {Sel : Type 0} (notifications : Sel → ℕ → Option Closer × Option Error) where
  -- A request that names no stream gets past the filter and panics: the empty stream has no `Open`.
  establish_subscription_no_stream :
      (req : EstablishRequest) (s : Service Sel) (o : SubscriptionOptions Sel)
      → update_filter s req.stream_filter_name no_options ≡ ok o
      → req.stream ≡ []
      → establish_subscription notifications req s ≡ panicked
  unfolding establish_subscription next_sub_id apply update_filter update_stream is_empty
  establish_subscription_no_stream req s o f e = rw (f, e)

  -- A modification whose stream does not open again has closed the notifications of the
  -- subscription, which stays registered with its old options and its used closer, and returns the
  -- error.
  pub modify_subscription_open_fails :
      (req : ModifyRequest) (s : Service Sel) (sub : Subscription Sel) (c : Closer)
      (opts : SubscriptionOptions Sel) (open_it : ℕ → Result Sel) (e : Error)
      → find s.subscriptions req.subscription_id ≡ some sub
      → sub.closer ≡ some c
      → update_filter s req.stream_filter_name (record (sub.opts) { stop_time = req.stop_time })
        ≡ ok opts
      → opts.stream.open_stream ≡ some open_it
      → open_it (length (s.log ++ closed c ∷ [])) ≡ err e
      → modify_subscription notifications req s
        ≡ ret (
          some e,
          record s {
            subscriptions = store s.subscriptions req.subscription_id sub;
            log = (s.log ++ closed c ∷ []) ++ opened opts.stream.name ∷ [];
          },
        )
  unfolding modify_subscription apply
  modify_subscription_open_fails req s sub c opts open_it e f g p q n = rw (f, p, q, g, n)
