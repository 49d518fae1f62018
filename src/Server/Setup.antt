-- ===== src/Server/Setup.antt =====
-- server.go and node.go: making a server over a device, its own management, and its end.
pub mod Started
use restconf.Prelude.{ℕ, Bool, true, false, Option, none, some, List, [], ◌∷◌, if◌then◌else◌}
use restconf.Text.{Bytes, codes, beq}
use restconf.Errors.{Error, Result, ok, err, Run, panicked, ret, and_then}
use restconf.Device.{Yang, Local, add, as_device}
use restconf.Server.{Server, serve_device}
use restconf.Stock.{HttpServer, new_http_server}
use restconf.Stock.Manage.{WebServerNode, web_server_node}

-- What the management of a server reads and writes: Web, the length of notifiers, which the program
-- never adds to, the count of subscriptions of browser_handler.go, and the debug flag of package fc.
pub record Managed : Type 0 where
  pub web : Option HttpServer
  pub notifiers : ℕ
  pub subscribe_count : ℕ
  pub debug : Bool

-- The child that Node answers with.
pub data ManagedChild : Type 0 where
  web_node : WebServerNode → ManagedChild
  no_child : ManagedChild
  base_child : ManagedChild

pub data FieldValue : Type 0 where
  flag : Bool → FieldValue
  number : ℕ → FieldValue
  of_base : FieldValue

web_if_any : Option HttpServer → ManagedChild
web_if_any none = no_child
web_if_any (some w) = web_node (web_server_node w)

-- OnChild of Node
unfoldable pub managed_child : (ident : Bytes) → (new : Bool) → Managed → ManagedChild × Managed
unfolding web_if_any
managed_child ident new m =
    if beq ident (codes "web")
    then (let m' = if new then record m { web = some new_http_server } else m in
        (web_if_any m'.web, m'))
    else (base_child, m)

-- OnField of Node, reading
unfoldable pub managed_field : (ident : Bytes) → Managed → FieldValue
managed_field ident m =
    if beq ident (codes "debug")
    then flag m.debug
    else if beq ident (codes "streamCount")
    then number m.notifiers
    else if beq ident (codes "subscriptionCount")
    then number m.subscribe_count
    else of_base

-- OnField of Node, writing debug; of another field of its own a write changes nothing
unfoldable pub write_debug : Bool → Managed → Managed
write_debug on m = record m { debug = on }

closed : Option Error → Option ℕ → Managed → Run (Option Error × Managed)
closed answer none m = panicked
closed answer (some n) m = ret (answer, record m { web = none })

close_web : Option Error → Option HttpServer → Managed → Run (Option Error × Managed)
unfolding closed
close_web answer none m = ret (none, m)
close_web answer (some w) m = closed answer w.server m

-- Close; `answer` is the error of closing the http.Server, and one that was never made is a panic
unfoldable pub close : (answer : Option Error) → Managed → Run (Option Error × Managed)
unfolding close_web
close answer m = close_web answer m.web m

-- m of NewHttpServe
abbrev pub empty_server : {Browser : Type 0} → Server Browser
empty_server = record {
  web_apps = [];
  ver = [];
  main = none;
  devices = none;
  unhandled_request_handler = none;
  filters = [];
  only_strict_compliance = false;
}

module _ {Node Source Browser Value Object St : Type 0}
    (yang : Yang Node Source Browser Value Object St) where
  checked : Option Error × Local Browser → Run (Local Browser)
  checked (some e, d) = panicked
  checked (none, d) = ret d

  -- d.Add, whose error is a panic
  must_add : Bytes → Node → Local Browser → Run (Local Browser)
  unfolding checked
  must_add name n d = checked (add yang name n d)

  -- The server has the device by pointer: it is served as it is in the end.
  serving : Local Browser → Run (Server Browser × Local Browser)
  serving d = ret (serve_device (as_device d) empty_server, d)

  -- NewHttpServe; `lib_node` is the node of the YANG library
  unfoldable pub new_http_serve :
      (lib_node : Node) → Local Browser → Run (Server Browser × Local Browser)
  unfolding must_add serving
  new_http_serve lib_node d = and_then (must_add (codes "ietf-yang-library") lib_node d) serving

  -- NewServer; `node` is the node of the server's management
  unfoldable pub new_server :
      (lib_node node : Node) → Local Browser → Run (Server Browser × Local Browser)
  unfolding must_add serving
  new_server lib_node node d =
      and_then (new_http_serve lib_node d)
        (λ x. and_then (must_add (codes "fc-restconf") node x.1) serving)
