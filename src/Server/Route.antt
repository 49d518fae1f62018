-- ===== src/Server/Route.antt =====
-- ServeHTTP of server.go: the filters, the routes, and the handlers of the browsers.
pub mod Paths
use restconf.Prelude.{
  ℕ, Bool, true, false, Option, none, some, List, [], ◌∷◌, ◌++◌, ◌&&◌, if◌then◌else◌,
}
use restconf.Text.{Bytes, codes, beq, is_empty, contains}
use restconf.Errors.{Error, bad_address, not_found, Result, ok, err, Fc, Run, panicked, ret}
use restconf.Url.{Url, shift, shift_optional_param_within_segment}
use restconf.Http.{get, Request, Response, set_header, write}
use restconf.Http.Report.{Encoders, report}
use restconf.Compliance.{ComplianceOptions, determine_compliance}
use restconf.Handler.{
  Backend, Context, Endpoint, endpoint_data, endpoint_operations, endpoint_streams, endpoint_schema,
}
use restconf.Handler.Serve
use restconf.Server.{Opener, WebApp, Device, Server, find_device}
use restconf.Server.Pages.{Web, redirect, handle_web_app, serve_stream_source, serve_static_route}

-- The browser of a schema: parser.LoadModule on an opener, and nodeutil.SchemaBrowser of two modules.
pub record Schemas (Browser : Type 0) : Type 1 where
  pub Loaded : Type 0
  pub load_module : Option Opener → Bytes → Result Loaded
  pub schema_browser : Loaded → Loaded → Browser

-- The CORS header fields.
unfoldable pub allow_origins : Response → Response
allow_origins w = set_header (codes "Access-Control-Allow-Origin") (codes "*") (
    set_header (codes "Access-Control-Allow-Methods")
      (codes "GET, POST, PUT, OPTIONS, DELETE, PATCH")
      (set_header (codes "Access-Control-Allow-Headers") (codes "origin, content-type, accept") w))

module _ {St Sel Node Browser : Type 0} (b : Backend St Sel Node Browser)
    (schemas : Schemas Browser) (web : Web) (fc : Fc) (encoders : Encoders) where
  -- What a request is answered with: the response and the application's state, or a panic.
  abbrev pub Answer : Type 0
  Answer = Run (Response × St)

  pure_answer : Run Response → St → Answer
  pure_answer panicked s = panicked
  pure_answer (ret w) s = ret (w, s)

  module _ (compliance : ComplianceOptions) (accept : Bytes) where
    refuse : Error → Request → Response → Response
    refuse e r w = report fc encoders compliance e r accept w

    -- what the device's Browser answered, and `p` behind the module's name
    with_browser :
        Option Browser × Option Error → Url → Request → Response → Option (Browser × Url) × Response
    unfolding refuse
    with_browser (some browser, _) p r w = (some (browser, p), w)
    with_browser (none, some e) p r w = (none, refuse e r w)
    with_browser (none, none) p r w =
        (none, refuse (not_found [] (codes ". no module found in path")) r w)

    look_for :
        Option (Device Browser)
        → Bytes × Url
        → Request
        → Response
        → Run (Option (Browser × Url) × Response)
    unfolding with_browser
    look_for none (name, p) r w = panicked
    look_for (some d) (name, p) r w = ret (with_browser (d.browser name) p r w)

    unfoldable pub shift_browser_handler :
        Option (Device Browser) → Url → Request → Response → Run (Option (Browser × Url) × Response)
    unfolding look_for refuse
    shift_browser_handler d orig r w =
        if is_empty (shift orig b':').0
        then ret (none, refuse (not_found [] (codes ". no module found in path")) r w)
        else look_for d (shift orig b':') r w

    handle : Context → Request → Endpoint → Run (Option (Browser × Url) × Response) → St → Answer
    handle ctx r endpoint_id panicked s = panicked
    handle ctx r endpoint_id (ret (none, w)) s = ret (w, s)
    handle ctx r endpoint_id (ret (some (browser, p), w)) s = ret (
        Serve.serve_http b fc encoders compliance ctx browser (record r { url = p }) endpoint_id w
          s)

    unfoldable pub serve :
        Context → Option (Device Browser) → Request → Endpoint → Response → St → Answer
    unfolding handle
    serve ctx d r endpoint_id w s = handle ctx r endpoint_id (shift_browser_handler d r.url r w) s

    loaded_library :
        Context → Request → schemas.Loaded → Result schemas.Loaded → Response → St → Response × St
    unfolding refuse
    loaded_library ctx r m (err e) w s = (refuse e r w, s)
    loaded_library ctx r m (ok ylib) w s =
        Serve.serve_http b fc encoders compliance ctx (schemas.schema_browser ylib m) r
          endpoint_schema w s

    loaded_module :
        Context → Request → Option Opener → Result schemas.Loaded → Response → St → Response × St
    unfolding refuse loaded_library
    loaded_module ctx r ypath (err e) w s = (refuse e r w, s)
    loaded_module ctx r ypath (ok m) w s =
        loaded_library ctx r m (schemas.load_module ypath (codes "fc-yang")) w s

    unfoldable pub serve_schema : Context → Request → Option Opener → Response → St → Response × St
    unfolding loaded_module
    serve_schema ctx r ypath w s =
        let (mod_name, p) = shift r.url b'/' in
        loaded_module ctx (record r { url = p }) ypath (schemas.load_module ypath mod_name) w s

    -- "ui" and "schema", which ask the device for a source
    serve_source : Bool → Context → Option (Device Browser) → Request → Response → St → Answer
    unfolding pure_answer
    serve_source is_ui ctx none r w s = panicked
    serve_source true ctx (some d) r w s =
        pure_answer
          (serve_stream_source web fc encoders compliance r d.ui_source r.url.path accept w) s
    serve_source false ctx (some d) r w s =
        if contains accept (codes "/json")
        then ret (serve_schema ctx r d.schema_source w s)
        else pure_answer
            (serve_stream_source web fc encoders compliance r d.schema_source r.url.path accept w) s

    -- the switch on op2; `r` has the path behind it
    unfoldable pub serve_restconf :
        Context → Option (Device Browser) → Bytes → Request → Response → St → Answer
    unfolding serve_source refuse
    serve_restconf ctx d op2 r w s =
        if beq op2 (codes "data")
        then serve ctx d r endpoint_data w s
        else if beq op2 (codes "streams")
        then serve ctx d r endpoint_streams w s
        else if beq op2 (codes "operations")
        then serve ctx d r endpoint_operations w s
        else if beq op2 (codes "ui")
        then serve_source true ctx d r w s
        else if beq op2 (codes "schema")
        then serve_source false ctx d r w s
        else ret (refuse bad_address r w, s)

    module _ (srv : Server Browser) (r : Request) where
      unhandled : Option (Request → Response → Response) → Response → Response
      unhandled none w = w
      unhandled (some handler) w = handler r w

      -- handleWebApp, and what follows where no app has the endpoint
      after_web_apps : Option Response → Response → Response
      unfolding unhandled
      after_web_apps (some w') w = w'
      after_web_apps none w = unhandled srv.unhandled_request_handler w

      -- the switch on op1; `p` is the URL behind it
      unfoldable pub serve_operation :
          Context → Option (Device Browser) → Bytes → Url → Response → St → Answer
      unfolding after_web_apps
      serve_operation ctx d op1 p w s =
          if beq op1 (codes ".ver")
          then ret ((write srv.ver w).1, s)
          else if beq op1 (codes ".well-known")
          then ret ((serve_static_route r w).1, s)
          else if beq op1 (codes "restconf")
          then serve_restconf ctx d (shift p b'/').0 (record r { url = (shift p b'/').1 }) w s
          else ret (
            after_web_apps (handle_web_app web fc encoders srv.web_apps r op1 p.path accept w) w,
            s,
          )

      -- what findDevice answered
      with_device :
          Context → Run (Result (Option (Device Browser))) → Bytes → Url → Response → St → Answer
      unfolding refuse
      with_device ctx panicked op1 p w s = panicked
      with_device ctx (ret (err e)) op1 p w s = ret (refuse e r w, s)
      with_device ctx (ret (ok d)) op1 p w s = serve_operation ctx d op1 p w s

      dispatch : Context → Bytes × Bytes × Url → Response → St → Answer
      unfolding with_device
      dispatch ctx (op1, device_id, p) w s = with_device ctx (find_device srv device_id) op1 p w s

      home : List WebApp → Context → Response → St → Answer
      unfolding dispatch
      home (wap ∷ waps) ctx w s = ret (redirect web fc encoders r wap.endpoint w, s)
      home [] ctx w s = dispatch ctx (shift_optional_param_within_segment r.url b'=' b'/') w s

      -- from the CORS header fields on
      unfoldable pub answer_request : Context → Response → St → Answer
      unfolding home dispatch
      answer_request ctx w s =
          if beq r.url.path (codes "/") && beq r.method (codes "OPTIONS")
          then ret (allow_origins w, s)
          else if beq r.url.path (codes "/") && beq r.method (codes "GET")
          then home srv.web_apps ctx (allow_origins w) s
          else dispatch ctx (shift_optional_param_within_segment r.url b'=' b'/') (allow_origins w)
              s

      -- the filters, each with the context of the one before
      unfoldable pub run_filters :
          List (Context → Response → Request → Result Context × Response)
          → Result Context × Response
          → Result Context × Response
      run_filters [] x = x
      run_filters (f ∷ fs) (err e, w) = (err e, w)
      run_filters (f ∷ fs) (ok ctx, w) = run_filters fs (f ctx w r)

      after_filters : Result Context × Response → St → Answer
      unfolding refuse
      after_filters (err e, w) s = ret (refuse e r w, s)
      after_filters (ok ctx, w) s = answer_request ctx w s

  -- `values` are those of r.Context()
  unfoldable pub serve_http :
      Server Browser → List (Bytes × Bytes) → Request → Response → St → Answer
  unfolding after_filters
  serve_http srv values r w s =
      let accept = get r.header (codes "Accept") in
      let compliance =
        determine_compliance srv.only_strict_compliance r.query
          (get r.header (codes "Content-Type")) accept in
      let ctx : Context = record { compliance = compliance; remote_ip = none; values = values } in
      after_filters compliance accept srv r
        (run_filters compliance accept srv r srv.filters (ok ctx, w)) s
