-- ===== src/Tests/Streams.antt =====
-- Two requests for the notifications of "car", one of which ends.
use restconf.Prelude.{none, some, List, [], ◌∷◌, ◌≡◌, refl, arith}
use restconf.Text.{Bytes, codes, beq}
use restconf.Maps.{find, store, delete}
use restconf.Http.{fresh, write, set_header}
use restconf.Decimal.{inc64}
use restconf.Compliance.{strict}
use restconf.Sse.{decode_sse}
use restconf.Handler.Serve.{begin_stream}
use restconf.Handler.Stream.{send_notifications, send_notification, payload}
use restconf.Handler.Stream.Received.{payloads}
use restconf.Handler.Watching.{
  Asked, Watch, Watches, Event, subscribed, notified, done, no_watches, steps, step, after_step,
  watch_step, placed, request_of, counted, dec64,
}
use restconf.Handler.Watching.Apart.{steps_lem}
use restconf.Tests.Requests.{errors, speed, brackets}

abbrev asked : Asked
asked = record {
  compliance = strict;
  accept_type = codes "text/event-stream";
  orig_mod = record { ident = codes "car"; namespace = codes "urn:car" };
  response = fresh;
}

abbrev events : List Event
events =
    subscribed (codes "a") asked none
    ∷ subscribed (codes "b") asked none
    ∷ notified (codes "b") speed
    ∷ notified (codes "a") speed
    ∷ done (codes "b")
    ∷ []

abbrev left : Watch
left = record {
  asked = asked;
  response =
      (send_notifications errors strict (codes "text/event-stream") asked.orig_mod (speed ∷ [])
        (begin_stream fresh)).1;
  errors = [];
}

abbrev one_left : Watches
one_left = record { subscribe_count = 1; waiting = (codes "a", left) ∷ [] }

runs : steps errors events no_watches ≡ some one_left
unfolding steps step after_step watch_step find placed store beq request_of send_notification
    payload write begin_stream set_header counted delete dec64 send_notifications inc64
runs = refl

steps_lem_example :
    (watch : Watch) × (find one_left.waiting (codes "a") ≡ some watch)
    × (watch.response
        ≡ (send_notifications errors strict
            (codes "text/event-stream")
            asked.orig_mod
            (speed ∷ [])
            (begin_stream fresh)).1)
    × (decode_sse watch.response.body
        ≡ payloads errors strict (codes "text/event-stream") asked.orig_mod (speed ∷ []))
unfolding request_of beq restconf.Compliance.is_xml restconf.Text.has_suffix
steps_lem_example =
    steps_lem errors (codes "a") asked (speed ∷ []) events no_watches one_left runs refl refl
      (record { etime = omega arith; event = λ bytes e. brackets bytes e }, tt) refl refl
