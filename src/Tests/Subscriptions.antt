-- ===== src/Tests/Subscriptions.antt =====
-- estream at a concrete publisher.
use restconf.Prelude.{ℕ, ◌≡◌, refl, Option, none, some, List, [], ◌∷◌, ◌++◌, arith}
use mathlib.Core.Option
use restconf.Text.{Bytes, codes}
use restconf.Errors.{Error, new, ok, err}
use restconf.Maps.{find, store}
use restconf.Decimal.{format_int, inc64}
use restconf.Estream.{Closer, Stream, SubscriptionOptions}
use restconf.Estream.Subscription.{
  ret, opened, closed, subscribed, notified, sub_started, active, suspended, ReceiverEntry,
  update_listeners, Subscription, new_subscription, no_options, no_stream,
}
use restconf.Estream.Delivery.{deliver, deliver_one}
use restconf.Estream.Delivery.Laws.{deliver_each, deliver_all, deliver_all_suspended}
use restconf.Estream.Service.{
  Service, EstablishRequest, ModifyRequest, new_service, add_stream, establish_subscription,
  modify_subscription,
}
use restconf.Estream.Service.Ids.{IsNumbered, establish_subscription-IsNumbered}
use restconf.Estream.Service.Failures.{started, modify_subscription_open_fails}

-- Selections are numbers; receiver 1 fails.
abbrev broken : Error
broken = new (codes "broken")

abbrev quiet : Error → Bytes
quiet e = codes "text"

abbrev good : ReceiverEntry ℕ
good = record {
  name = codes "good";
  state = active;
  excluded_event_records = 0;
  sent_event_records = 5;
  receiver = λ e. none;
}

abbrev bad : ReceiverEntry ℕ
bad = record {
  name = codes "bad";
  state = active;
  excluded_event_records = 0;
  sent_event_records = 5;
  receiver = λ e. some broken;
}

abbrev both : List (Bytes × ReceiverEntry ℕ)
both = (codes "bad", bad) ∷ (codes "good", good) ∷ []

deliver_each_example :
    find (deliver quiet (7 ∷ []) (codes "100") 1 (some 4) both []).0 (codes "good")
    ≡ Option.map
        (λ r. (deliver_one quiet (7 ∷ []) (codes "100") 1 (some 4) r []).0)
        (find both (codes "good"))
deliver_each_example = deliver_each quiet (7 ∷ []) (codes "100") 1 (some 4) both [] (codes "good")

abbrev halted : ReceiverEntry ℕ
halted = record bad { state = suspended }

deliver_all_suspended_example :
    deliver_all quiet (7 ∷ []) (codes "100") ((1, some 4) ∷ (2, none) ∷ []) (halted, [])
    ≡ (record halted { excluded_event_records = 2 }, [])
deliver_all_suspended_example =
    deliver_all_suspended quiet (7 ∷ []) (codes "100") ((1, some 4) ∷ (2, none) ∷ []) halted [] refl
      (omega arith)

-- A publisher with one stream.
abbrev engine : Stream ℕ
engine = record no_stream { name = codes "engine"; open_stream = some (λ n. ok 3) }

abbrev publisher : Service ℕ
publisher = record {
  subscriptions = [];
  filters = [];
  streams = (codes "engine", engine) ∷ [];
  listeners = 7 ∷ [];
  subcription_counter = 100;
  log = [];
}

abbrev notifications : ℕ → ℕ → Option Closer × Option Error
notifications sel n = (some 9, none)

abbrev to_engine : EstablishRequest
to_engine = record {
  stream = codes "engine";
  stream_filter_name = [];
  replay_start_time = 0;
  stop_time = 0;
}

publisher-IsNumbered : IsNumbered publisher
unfolding find
publisher-IsNumbered = record {
  under_id = λ k sub e. absurd (cc e);
  given = λ k sub e. absurd (cc e);
  in_range = omega arith;
}

abbrev engine_options : SubscriptionOptions ℕ
engine_options = record no_options { stream = engine }

abbrev after : Service ℕ
after = record publisher {
  subscriptions = (codes "100", started engine_options (codes "100") (some 9)) ∷ [];
  subcription_counter = 101;
  log =
      opened (codes "engine")
      ∷ subscribed (codes "100")
      ∷ notified 7 (record { event_id = sub_started; subscription = codes "100"; reason = [] })
      ∷ [];
}

runs : establish_subscription notifications to_engine publisher ≡ ret (ok (codes "100"), after)
unfolding establish_subscription restconf.Estream.Service.update_filter restconf.Text.is_empty
    restconf.Estream.Service.update_stream find restconf.Estream.Service.next_sub_id
    restconf.Text.beq inc64 restconf.Estream.Apply.apply new_subscription format_int store
    update_listeners restconf.Decimal.print_nat
runs = refl

establish_subscription-IsNumbered_example : IsNumbered after
establish_subscription-IsNumbered_example =
    establish_subscription-IsNumbered notifications to_engine publisher after (ok (codes "100"))
      publisher-IsNumbered (omega arith) runs

-- A stream that opened once, and does not open again.
abbrev flaky : Stream ℕ
flaky = record engine { open_stream = some (λ n. err broken) }

abbrev subscription : Subscription ℕ
subscription = started (record no_options { stream = flaky }) (codes "100") (some 9)

abbrev later : Service ℕ
later = record after { subscriptions = (codes "100", subscription) ∷ [] }

abbrev to_change : ModifyRequest
to_change = record { subscription_id = codes "100"; stream_filter_name = []; stop_time = 8 }

modify_subscription_open_fails_example :
    modify_subscription notifications to_change later
    ≡ ret (
      some broken,
      record later {
        subscriptions = store later.subscriptions (codes "100") subscription;
        log = (later.log ++ closed 9 ∷ []) ++ opened (codes "engine") ∷ [];
      },
    )
unfolding find restconf.Text.beq restconf.Text.is_empty restconf.Estream.Service.update_filter
modify_subscription_open_fails_example =
    modify_subscription_open_fails notifications to_change later subscription 9
      (record no_options { stream = flaky; stop_time = 8 }) (λ n. err broken) broken refl refl refl
      refl refl
