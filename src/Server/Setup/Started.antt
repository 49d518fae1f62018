-- ===== src/Server/Setup/Started.antt =====
-- What a new server serves (server.go), over a local device (device/local.go).
use restconf.Prelude.{Option, none, some, List, [], ◌≡◌, ◌≢◌, refl, sym, ap, ◌∙◌, if◌then◌else◌}
use restconf.Text.{Bytes, codes, beq, is_empty}
use restconf.Text.Laws.{beq_of_ne}
use restconf.Errors.{Error, ok, ret}
use restconf.Maps.{find, store}
use restconf.Maps.Laws.{find-store}
use restconf.Device.{Meta, Yang, Local, add, as_device, browser}
use restconf.Server.{Server, find_device, serve_device}
use restconf.Server.Setup.{new_http_serve, new_server, empty_server}

find-store-store :
    {V : Type 0} (m : List (Bytes × V)) (a b k : Bytes) (x y : V)
    → find (store (store m a x) b y) k
      ≡ (if beq b k then some y else if beq a k then some x else find m k)
find-store-store m a b k x y = find-store (store m a x) b k y ∙ rw (find-store m a k x) refl

module _ {Node Source Browser Value Object St : Type 0}
    (yang : Yang Node Source Browser Value Object St) (lib_node node : Node)
    (d : Local Browser) where
  -- If the YANG modules of the library and of the server's management can be loaded, NewServer
  -- gives a server whose main device has a browser for each of the two, over its node, and for
  -- every other module the browser that the device had before.
  pub new_server_lem :
      (lib own : Meta) (k : Bytes)
      → yang.load_module d.schema_source (codes "ietf-yang-library") ≡ ok lib
      → yang.load_module d.schema_source (codes "fc-restconf") ≡ ok own
      → k ≢ codes "ietf-yang-library"
      → k ≢ codes "fc-restconf"
      → (srv : Server Browser) × (d' : Local Browser) × (new_server yang lib_node node d
          ≡ ret (srv, d'))
        × (find_device srv [] ≡ ret (ok (some (as_device d'))))
        × ((as_device d').browser (codes "ietf-yang-library")
            ≡ (some (yang.new_browser lib lib_node), none))
        × ((as_device d').browser (codes "fc-restconf") ≡ (some (yang.new_browser own node), none))
        × ((as_device d').browser k ≡ (as_device d).browser k)
  unfolding new_server new_http_serve add as_device browser is_empty find_device serve_device
  new_server_lem lib own k loads_lib loads_own ne ne' =
      let d1 = record d {
        browsers = store d.browsers (codes "ietf-yang-library") (yang.new_browser lib lib_node);
      } in
      let d2 = record d1 {
        browsers = store d1.browsers (codes "fc-restconf") (yang.new_browser own node);
      } in
      let answer : Option Browser → Option Browser × Option Error = λ o. (o, none) in
      let at = λ (j : Bytes).
        find-store-store d.browsers (codes "ietf-yang-library") (codes "fc-restconf") j
          (yang.new_browser lib lib_node) (yang.new_browser own node) in
      (
        serve_device (as_device d2) empty_server,
        d2,
        rw (loads_lib, loads_own) refl,
        refl,
        ap answer (at (codes "ietf-yang-library") ∙ unfold beq in refl),
        ap answer (at (codes "fc-restconf") ∙ unfold beq in refl),
        ap answer (
            at k
            ∙ rw
                (
                  beq_of_ne (codes "fc-restconf") k (λ q. ne' (sym q)),
                  beq_of_ne (codes "ietf-yang-library") k (λ q. ne (sym q)),
                )
                refl),
      )
