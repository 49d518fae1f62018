-- ===== src/Client/Remote.antt =====
-- client/client.go: a client as a device. Files of schemas come from the program's own path or from
-- the server, which answers a URL in the same way as long as this is looked at.
pub mod Cache
use restconf.Prelude.{Bool, true, false, Option, none, some, List, [], ◌∷◌, ◌++◌, if◌then◌else◌}
use restconf.Text.{Bytes, codes}
use restconf.Errors.{Error, new, text, Fc, Result, ok, err, Run, panicked, ret}
use restconf.Maps.{find, store}
use restconf.Compliance.{ComplianceOptions}
use restconf.Device.{Meta}
use restconf.Device.YangLib.Loader.{ModuleHnd, NewEntry, load_modules}
use restconf.Client.{Address, HttpResponse, new_address}
use restconf.Client.Modes.{ClientNode}

-- source.Opener, with what can be read and the error of the call
abbrev pub Opener : Type 0
Opener = (name ext : Bytes) → Option (Bytes × Option Error) × Option Error

-- parser.LoadModule, source.Any of two openers, and Get of the client's http.Client
pub record Sources : Type 0 where
  pub load_module : Opener → Bytes → Result Meta
  pub any : Opener → Opener → Opener
  pub http_get : Bytes → Option HttpResponse × Option Error

-- httpStream
pub record HttpStream : Type 0 where
  pub ypath : Option Opener
  pub url : Bytes

pub record RemoteDevice : Type 0 where
  pub address : Address
  pub yang_path : Opener
  pub schema_path : Opener
  pub modules : List (Bytes × Meta)
  pub compliance : ComplianceOptions

module _ (sources : Sources) where
  body_of : Option HttpResponse × Option Error → Option (Bytes × Option Error) × Option Error
  body_of (some resp, e) = (resp.body, e)
  body_of (none, e) = (none, e)

  -- The status of the answer is not looked at.
  unfoldable pub open_stream : HttpStream → Opener
  unfolding body_of
  open_stream s name ext = body_of (sources.http_get (s.url ++ (name ++ ext)))

  or_else : Result Meta → Result Meta → Result Meta
  or_else (ok m) later = ok m
  or_else (err e) later = later

  unfoldable pub resolve_module_hnd : Opener → HttpStream → ModuleHnd → Result Meta
  unfolding or_else open_stream
  resolve_module_hnd ypath s hnd =
      or_else (sources.load_module ypath hnd.name) (sources.load_module (open_stream s) hnd.name)

  -- SchemaSource and UiSource
  unfoldable pub schema_source : RemoteDevice → Opener
  schema_source c = c.schema_path

  unfoldable pub ui_source : RemoteDevice → Opener
  unfolding open_stream
  ui_source c = open_stream (record { ypath = none; url = c.address.ui })

  cached : Bytes → RemoteDevice → Option Meta → Result Meta → Result Meta × RemoteDevice
  cached name c (some m) loaded = (ok m, c)
  cached name c none (err e) = (err e, c)
  cached name c none (ok m) = (ok m, record c { modules = store c.modules name m })

  -- client.module
  unfoldable pub module' : Bytes → RemoteDevice → Result Meta × RemoteDevice
  unfolding cached
  module' name c = cached name c (find c.modules name) (sources.load_module c.schema_path name)

  module _ {Node : Type 0} where
    -- &clientNode{...}
    unfoldable pub new_client_node : Bytes → ClientNode Node
    new_client_node device_id = record {
      params = [];
      read = none;
      edit = none;
      method = [];
      changes = none;
      device = device_id;
    }

    opened : Result Meta × RemoteDevice → Result (Meta × ClientNode Node) × RemoteDevice
    unfolding new_client_node
    opened (err e, c) = (err e, c)
    opened (ok m, c) = (ok (m, new_client_node c.address.device_id), c)

    -- Browser: a browser of the module over a new node of the client
    unfoldable pub browser : Bytes → RemoteDevice → Result (Meta × ClientNode Node) × RemoteDevice
    unfolding opened module'
    browser name c = opened (module' name c)

  module _ {Sel : Type 0} (fc : Fc) (parse_host : Bytes → Result Bytes)
      (insert_into : Sel
        → (NewEntry → List (Bytes × Meta) → Option Error × List (Bytes × Meta))
        → List (Bytes × Meta)
        → Option Error × List (Bytes × Meta))
      (find_modules : Address → Meta → Result Sel) (ypath : Opener)
      (compliance : ComplianceOptions) where
    with_modules : Address → Opener → Result (List (Bytes × Meta)) → Result RemoteDevice
    with_modules address schema_path (err e) =
        err (new (codes "could not load modules. " ++ text fc e))
    with_modules address schema_path (ok modules) = ok (record {
      address = address;
      yang_path = ypath;
      schema_path = schema_path;
      modules = modules;
      compliance = compliance;
    })

    -- parser.RequireModule panics on an error
    connected : Address → Result Meta → Run (Result RemoteDevice)
    unfolding with_modules open_stream
    connected address (err e) = panicked
    connected address (ok m) =
        let remote_schema_path : HttpStream = record { ypath = some ypath; url = address.schema } in
        ret (
          with_modules address (sources.any ypath (open_stream remote_schema_path)) (
            load_modules (resolve_module_hnd ypath remote_schema_path) insert_into
              (find_modules address m)))

    at_address : Run (Result Address) → Run (Result RemoteDevice)
    unfolding connected
    at_address panicked = panicked
    at_address (ret (err e)) = ret (err e)
    at_address (ret (ok address)) =
        connected address (sources.load_module ypath (codes "ietf-yang-library"))

    -- NewDevice. `find_modules` is Find of modules-state/module in a browser of a module at an address.
    unfoldable pub new_device : Bytes → Run (Result RemoteDevice)
    unfolding at_address
    new_device url = at_address (new_address parse_host url)
