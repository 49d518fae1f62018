-- ===== src/Stock.antt =====
-- stock/web.go: the web server of a program, with its options and metrics, and a handler for files.
-- A *Tls is a number, the place of the Tls in a list (Stock/Tls); options that are compared compare it.
pub mod Tls
pub mod Manage
pub mod Lifecycle
pub mod Metrics
pub mod Files
use restconf.Prelude.{
  ℕ, zero, suc, ◌+◌, ◌*◌, Bool, true, false, not, ◌&&◌, Option, none, some, List, [], ◌∷◌, ◌++◌,
  ◌==◌, if◌then◌else◌,
}
use restconf.Text.{Bytes, codes, beq, is_empty}
use restconf.Errors.{Error, Result, ok, err, Run, panicked, ret}
use restconf.Decimal.{inc64, wrap64}

-- An `int` is its pattern of 64 bits.
pub record HttpServerOptions : Type 0 where
  pub addr : Bytes
  pub port : Bytes
  pub read_timeout : ℕ
  pub write_timeout : ℕ
  pub tls : Option ℕ
  pub iface : Bytes
  pub callback_address : Bytes
  pub notify_keepalive_timeout_ms : ℕ

abbrev pub no_options : HttpServerOptions
no_options = record {
  addr = [];
  port = [];
  read_timeout = 0;
  write_timeout = 0;
  tls = none;
  iface = [];
  callback_address = [];
  notify_keepalive_timeout_ms = 0;
}

pub record WebMetrics : Type 0 where
  pub new : ℕ
  pub active : ℕ
  pub idle : ℕ
  pub hijacked : ℕ
  pub closed : ℕ

-- http.ConnState
pub data ConnState : Type 0 where
  state_new state_active state_idle state_hijacked state_closed : ConnState

-- The http.Server that ApplyOptions makes, with the *Tls that it listens with; times in nanoseconds.
pub record Listener : Type 0 where
  pub addr : Bytes
  pub read_timeout : ℕ
  pub write_timeout : ℕ
  pub tls : Option ℕ

-- `server` is the place of service.Server among all that were made; `made` holds them, with whether
-- they still listen.
pub record HttpServer : Type 0 where
  pub options : HttpServerOptions
  pub server : Option ℕ
  pub made : List (Listener × Bool)
  pub metrics : WebMetrics

unfoldable pub new_http_server : HttpServer
new_http_server = record {
  options = no_options;
  server = none;
  made = [];
  metrics = record { new = 0; active = 0; idle = 0; hijacked = 0; closed = 0 };
}

-- p == q
same_pointer : Option ℕ → Option ℕ → Bool
same_pointer none none = true
same_pointer (some p) (some q) = p == q
same_pointer _ _ = false

-- `==` of the struct
unfoldable pub same_options : HttpServerOptions → HttpServerOptions → Bool
unfolding same_pointer
same_options a b =
    beq a.addr b.addr
    && (beq a.port b.port
        && (a.read_timeout == b.read_timeout
            && (a.write_timeout == b.write_timeout
                && (same_pointer a.tls b.tls
                    && (beq a.iface b.iface
                        && (beq a.callback_address b.callback_address
                            && a.notify_keepalive_timeout_ms == b.notify_keepalive_timeout_ms))))))

-- time.Duration(ms) * time.Millisecond
milliseconds : ℕ → ℕ
milliseconds ms = wrap64 (ms * 1000000)

unfoldable pub listener_of : HttpServerOptions → Listener
unfolding milliseconds
listener_of options = record {
  addr = options.port;
  read_timeout = milliseconds options.read_timeout;
  write_timeout = milliseconds options.write_timeout;
  tls = options.tls;
}

count_made : List (Listener × Bool) → ℕ
count_made [] = 0
count_made (_ ∷ made) = count_made made + 1

unfoldable pub apply_options : HttpServerOptions → HttpServer → HttpServer
unfolding count_made
apply_options options service =
    if same_options options service.options then service else record service {
      options = options;
      server = some (count_made service.made);
      made = service.made ++ (listener_of options, true) ∷ [];
    }

shut_down : ℕ → List (Listener × Bool) → List (Listener × Bool)
shut_down n [] = []
shut_down zero ((l, _) ∷ made) = (l, false) ∷ made
shut_down (suc n) (l ∷ made) = l ∷ shut_down n made

stopped : Option ℕ → HttpServer → Run HttpServer
unfolding shut_down
stopped none service = panicked
stopped (some n) service = ret (record service { made = shut_down n service.made })

-- Stop; Shutdown of a nil server is a panic
unfoldable pub stop : HttpServer → Run HttpServer
unfolding stopped
stop service = stopped service.server service

count_state : ConnState → WebMetrics → WebMetrics
count_state state_new m = record m { new = inc64 m.new }
count_state state_active m = record m { active = inc64 m.active }
count_state state_idle m = record m { idle = inc64 m.idle }
count_state state_hijacked m = record m { hijacked = inc64 m.hijacked }
count_state state_closed m = record m { closed = inc64 m.closed }

unfoldable pub connection_update : ConnState → HttpServer → HttpServer
unfolding count_state
connection_update state service = record service { metrics = count_state state service.metrics }

-- The client of GetHttpClient: http.DefaultClient, or one with the certificates and authorities of a
-- Tls.
pub data HttpClient : Type 0 where
  default_client : HttpClient
  tls_client : (tls : ℕ) → HttpClient

client_with : Option ℕ → HttpClient
client_with none = default_client
client_with (some t) = tls_client t

unfoldable pub get_http_client : HttpServer → HttpClient
unfolding client_with
get_http_client service = client_with service.options.tls
