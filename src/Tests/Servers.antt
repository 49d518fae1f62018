-- ===== src/Tests/Servers.antt =====
-- A web server with its metrics, files and certificates, and a new server over a device.
use Prim.Native.Nat.{◌%◌, ◌^◌}
use restconf.Prelude.{
  ℕ, ◌+◌, true, false, none, some, [], ◌∷◌, ◌++◌, ◌≡◌, ◌≢◌, refl, ap, arith, if◌then◌else◌,
}
use restconf.Text.{Bytes, codes, beq}
use restconf.Text.Laws.{ne_of_beq}
use restconf.Errors.{ok, ret}
use restconf.Device.{Meta, Local, as_device}
use restconf.Server.{Server, find_device}
use restconf.Server.Setup.{new_server}
use restconf.Server.Setup.Started.{new_server_lem}
use restconf.Stock.{
  HttpServerOptions, no_options, HttpServer, new_http_server, apply_options, stop, listener_of,
  state_new, state_active,
}
use restconf.Stock.Lifecycle.{stop_leaves_first}
use restconf.Stock.Metrics.{counter, occurs, connection_updates, connection_updates_lem}
use restconf.Estream.Service.{Service}
use restconf.Estream.Subscription.{SubEvent, sub_started}
use restconf.Estream.Manage.{EventNode, EventListener, event, sends, on_notify}
use restconf.Estream.Manage.Notices.{name_of, on_notify-sends}
use restconf.Tests.Devices.{meta_of, parser, device}

abbrev at_port : Bytes → HttpServerOptions
at_port p = record no_options { port = p }

other_port : (p q : Bytes) → p ≢ q → at_port p ≢ at_port q
other_port p q ne e = ne (ap HttpServerOptions.port e)

stop_leaves_first_example :
    (s' : HttpServer) × (stop (
        apply_options
          (at_port (codes ":443"))
          (apply_options (at_port (codes ":80")) new_http_server))
      ≡ ret s')
    × (s'.made
        ≡ (listener_of (at_port (codes ":80")), true)
          ∷ (listener_of (at_port (codes ":443")), false)
          ∷ [])
unfolding new_http_server beq
stop_leaves_first_example =
    stop_leaves_first (at_port (codes ":80")) (at_port (codes ":443")) new_http_server refl
      (other_port (codes ":80") [] (ne_of_beq (codes ":80") [] refl))
      (other_port (codes ":443") (codes ":80") (ne_of_beq (codes ":443") (codes ":80") refl))

connection_updates_lem_example :
    counter state_new
      (connection_updates (state_new ∷ state_active ∷ state_new ∷ []) new_http_server).metrics
    ≡ (counter state_new new_http_server.metrics
        + occurs state_new (state_new ∷ state_active ∷ state_new ∷ []))
      % 2 ^ 64
unfolding new_http_server
connection_updates_lem_example =
    connection_updates_lem state_new (state_new ∷ state_active ∷ state_new ∷ []) new_http_server
      (omega arith)

abbrev service : Service ℕ
service = record {
  subscriptions = [];
  filters = [];
  streams = [];
  listeners = 4 ∷ [];
  subcription_counter = 100;
  log = [];
}

abbrev listened : Service ℕ
listened = record service { listeners = 4 ∷ 5 ∷ [] }

abbrev started : SubEvent
started = record { event_id = sub_started; subscription = codes "1"; reason = codes "new" }

on_notify-sends_example :
    (listened.listeners ≡ service.listeners ++ 5 ∷ [])
    × (sends sub_started started ≡ (
        if beq (codes "subscription-started") (name_of started.event_id)
        then some (event started)
        else none))
unfolding on_notify restconf.Estream.Manage.listening restconf.Estream.Manage.notification_type beq
    restconf.Estream.Service.on_event
on_notify-sends_example =
    on_notify-sends 5 (codes "subscription-started") service listened
      (record { listener = 5; etype = sub_started }) started refl

new_server_lem_example :
    (srv : Server (Meta × ℕ)) × (d' : Local (Meta × ℕ)) × (new_server parser 8 9 device
      ≡ ret (srv, d'))
    × (find_device srv [] ≡ ret (ok (some (as_device d'))))
    × ((as_device d').browser (codes "ietf-yang-library")
        ≡ (some (meta_of (codes "ietf-yang-library"), 8), none))
    × ((as_device d').browser (codes "fc-restconf")
        ≡ (some (meta_of (codes "fc-restconf"), 9), none))
    × ((as_device d').browser (codes "car") ≡ (as_device device).browser (codes "car"))
new_server_lem_example =
    new_server_lem parser 8 9 device (meta_of (codes "ietf-yang-library"))
      (meta_of (codes "fc-restconf")) (codes "car") refl refl
      (unfold beq in ne_of_beq (codes "car") (codes "ietf-yang-library") refl)
      (unfold beq in ne_of_beq (codes "car") (codes "fc-restconf") refl)
