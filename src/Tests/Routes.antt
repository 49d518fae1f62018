-- ===== src/Tests/Routes.antt =====
-- The routes at a server with one device, whose module "car" has a browser.
use restconf.Prelude.{ℕ, ◌≡◌, refl, false, Option, none, some, [], ◌++◌, arith, if◌then◌else◌}
use restconf.Text.{Bytes, codes, beq, is_empty, index, contains}
use restconf.Address.{ends_in}
use restconf.Url.{Url}
use restconf.Errors.{Result, ok, ret}
use restconf.Http.{Request, fresh}
use restconf.Handler.{endpoint_data}
use restconf.Handler.Serve
use restconf.Server.{Device, Server, device_address, missing}
use restconf.Server.Pages.{Web}
use restconf.Server.Route.{Schemas, allow_origins, serve_http}
use restconf.Server.Route.Paths.{data_name, compliance, context, serve_http_reaches_browser}
use restconf.Compliance.{strict}
use restconf.Client.{find_device_id_in_url, with_slash, Address, NodePath, full_url, new_address}
use restconf.Client.Reaches.{client_reaches_browser}
use restconf.Tests.Requests.{errors, printers, app, asks}

abbrev no_schemas : Schemas ℕ
no_schemas = record { Loaded = ℕ; load_module = λ opener name. ok 0; schema_browser = λ a b. 0 }

abbrev no_files : Web
no_files = record {
  open_file = λ directory name. missing;
  type_by_extension = λ ext. [];
  absolute = λ r url. url;
  html_escape = λ url. url;
}

abbrev car_device : Device ℕ
car_device = record {
  schema_source = none;
  ui_source = none;
  browser = λ name. if beq name (codes "car") then (some 0, none) else (none, none);
}

abbrev known : Bytes → Result (Option (Device ℕ))
known id = if beq id (codes "dev") then ok (some car_device) else ok none

abbrev bare : Server ℕ
bare = record {
  web_apps = [];
  ver = codes "1";
  main = none;
  devices = none;
  unhandled_request_handler = none;
  filters = [];
  only_strict_compliance = false;
}

abbrev host : Server ℕ
host = record bare { devices = some known }

abbrev to_car : Request
to_car = asks (codes "GET") (codes "/restconf=dev/data/car:speed")

serve_http_reaches_browser_example :
    (u : Url) × (u.path ≡ codes "speed")
    × (serve_http app no_schemas no_files errors printers host [] to_car fresh 5
        ≡ ret (
            Serve.serve_http app errors printers
              (compliance app no_schemas no_files errors printers host [] to_car fresh 5)
              (context app no_schemas no_files errors printers host [] to_car fresh 5)
              0
              (record to_car { url = u })
              endpoint_data
              (allow_origins fresh)
              5))
unfolding beq
serve_http_reaches_browser_example =
    serve_http_reaches_browser app no_schemas no_files errors printers host [] to_car fresh 5
      (codes "dev") (codes "data") (codes "car") (codes "speed") endpoint_data known car_device 0
      none data_name
      (record {
        whole_path = refl;
        no_slash = omega arith;
        named = λ e. absurd (cc e);
        unfiltered = refl;
      })
      (λ e. absurd (cc e)) (omega arith) refl refl refl

abbrev pub host_h : Bytes → Result Bytes
host_h url = ok (codes "h")

abbrev pub speed_path : NodePath
speed_path = record {
  module_ident = codes "car";
  original_ident = codes "car";
  string_no_module = codes "speed";
  is_action = false;
  is_root_level = false;
}

abbrev pub device_url : Bytes
device_url = codes "http://h/restconf=dev/"

abbrev pub location : Address
location = record {
  base = device_url;
  data_url = device_url ++ codes "data/";
  ui = device_url ++ codes "ui/";
  operations = device_url ++ codes "operations/";
  schema = device_url ++ codes "schema/";
  device_id = codes "dev";
  origin = codes "http://h";
}

client_reaches_browser_example :
    (u : Url) × (u.path ≡ codes "speed")
    × (serve_http app no_schemas no_files errors printers host [] to_car fresh 5
        ≡ ret (
            Serve.serve_http app errors printers
              (compliance app no_schemas no_files errors printers host [] to_car fresh 5)
              (context app no_schemas no_files errors printers host [] to_car fresh 5)
              0
              (record to_car { url = u })
              endpoint_data
              (allow_origins fresh)
              5))
unfolding beq new_address full_url is_empty find_device_id_in_url index with_slash ends_in
    device_address contains
client_reaches_browser_example =
    client_reaches_browser app no_schemas no_files errors printers host [] to_car fresh 5 host_h
      (codes "http://h") (codes "dev") (codes "h") location strict speed_path endpoint_data known
      car_device 0 none (omega arith) (omega arith) (omega arith) (λ e. absurd (cc e)) refl refl
      refl data_name (λ e. absurd (cc e)) (omega arith) refl refl refl refl
