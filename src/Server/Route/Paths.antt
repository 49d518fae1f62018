-- ===== src/Server/Route/Paths.antt =====
-- Where the paths of requests lead.
use restconf.Prelude.{
  ℕ, ◌≡◌, refl, sym, ap, ◌∙◌, ◌≢◌, false, Option, none, some, List, [], ◌∷◌, ◌++◌, arith,
}
use restconf.Text.{Bytes, codes, beq, is_empty}
use restconf.Text.Laws.{Lacks, Lacks-append, is_empty_of_ne}
use restconf.Errors.{Error, not_found, Result, ok, Fc, panicked, ret}
use restconf.Url.{Url, shift, shift_in_string, shift_optional_param_within_segment}
use restconf.Url.Segments.{shift_in_string-append, shift-path, shift_optional-path}
use restconf.Http.{get, Request, Response}
use restconf.Http.Report.{Encoders, report}
use restconf.Compliance.{ComplianceOptions, determine_compliance}
use restconf.Handler.{
  Backend, Context, Endpoint, endpoint_data, endpoint_operations, endpoint_streams,
}
use restconf.Handler.Serve
use restconf.Server.{Device, Server, find_device, look_up, or_not_found}
use restconf.Server.Pages.{Web, serve_stream_source}
use restconf.Server.Route.{
  Schemas, allow_origins, with_browser, look_for, refuse, shift_browser_handler, handle, serve,
  serve_restconf, serve_source, serve_operation, with_device, dispatch, answer_request,
  after_filters, run_filters, serve_http,
}

-- The name of an endpoint in a path.
pub data Names : Bytes → Endpoint → Type 0 where
  data_name : Names (codes "data") endpoint_data
  operations_name : Names (codes "operations") endpoint_operations
  streams_name : Names (codes "streams") endpoint_streams

Names-Lacks : {op : Bytes} {e : Endpoint} → Names op e → Lacks b'/' op × (op ≢ [])
Names-Lacks data_name = (omega arith, λ e. absurd (cc e))
Names-Lacks operations_name = (omega arith, λ e. absurd (cc e))
Names-Lacks streams_name = (omega arith, λ e. absurd (cc e))

cons_path : (a b : Bytes) (c : ℕ) → a ++ c ∷ b ≢ []
cons_path [] b c e = absurd (cc e)
cons_path (x ∷ a) b c e = absurd (cc e)

module _ {St Sel Node Browser : Type 0} (b : Backend St Sel Node Browser)
    (schemas : Schemas Browser) (web : Web) (fc : Fc) (encoders : Encoders) (srv : Server Browser)
    (values : List (Bytes × Bytes)) (r : Request) (w : Response) (s : St) where
  -- What the server makes of the request's headers.
  abbrev pub accept : Bytes
  accept = get r.header (codes "Accept")

  abbrev pub compliance : ComplianceOptions
  compliance =
      determine_compliance srv.only_strict_compliance r.query (get r.header (codes "Content-Type"))
        accept

  abbrev pub context : Context
  context = record { compliance = compliance; remote_ip = none; values = values }

  -- The request is for `tail` on the device `device_id`, and no filter stands before it.
  pub record IsFor (device_id tail : Bytes) : Type 0 where
    pub whole_path : r.url.path ≡ b'/' ∷ ((codes "restconf" ++ b'=' ∷ device_id) ++ b'/' ∷ tail)
    pub no_slash : Lacks b'/' device_id
    pub named : device_id ≢ []
    pub unfiltered : srv.filters ≡ []

  -- Such a request is a matter of the device and of the tail.
  dispatched :
      (device_id tail : Bytes)
      → IsFor device_id tail
      → (p : Url) × (p.path ≡ tail)
        × (serve_http b schemas web fc encoders srv values r w s
            ≡ with_device b schemas web fc encoders compliance accept srv r context
                (look_up srv.devices device_id)
                (codes "restconf")
                p
                (allow_origins w)
                s)
  unfolding serve_http answer_request dispatch run_filters after_filters beq find_device
  dispatched device_id tail f =
      let plain : Lacks b'/' (codes "restconf" ++ b'=' ∷ device_id) =
        Lacks-append b'/' (codes "restconf") (b'=' ∷ device_id) (omega arith)
          (omega arith, f.no_slash) in
      let (name, (value, rest)) =
        shift_optional-path r.url b'=' b'/' (codes "restconf") device_id tail f.whole_path
          (omega arith) plain in
      let no_root : beq r.url.path (codes "/") ≡ false = rw f.whole_path refl in
      let named : is_empty device_id ≡ false = is_empty_of_ne device_id f.named in
      (
        (shift_optional_param_within_segment r.url b'=' b'/').2,
        rest,
        rw (f.unfiltered, no_root, name, value, named) refl,
      )

  found_device :
      (device_id tail : Bytes) (devices : Bytes → Result (Option (Device Browser)))
      (d : Device Browser)
      → IsFor device_id tail
      → srv.devices ≡ some devices
      → devices device_id ≡ ok (some d)
      → (p : Url) × (p.path ≡ tail)
        × (serve_http b schemas web fc encoders srv values r w s
            ≡ serve_restconf b schemas web fc encoders compliance accept context
                (some d)
                (shift p b'/').0
                (record r { url = (shift p b'/').1 })
                (allow_origins w)
                s)
  unfolding look_up or_not_found with_device serve_operation beq
  found_device device_id tail devices d f g h =
      let (p, rest, e) = dispatched device_id tail f in (p, rest, e ∙ rw (g, h) refl)

  named_endpoint :
      {op : Bytes} {e : Endpoint}
      → Names op e
      → (ctx : Context) (d : Option (Device Browser)) (q : Request) (v : Response)
      → serve_restconf b schemas web fc encoders compliance accept ctx d op q v s
        ≡ serve b schemas web fc encoders compliance accept ctx d q e v s
  unfolding serve_restconf beq
  named_endpoint data_name ctx d q v = refl
  named_endpoint operations_name ctx d q v = refl
  named_endpoint streams_name ctx d q v = refl

  reached :
      (ctx : Context) (d : Device Browser) (q : Request) (e : Endpoint) (v : Response)
      (m rest : Bytes) (browser : Browser) (x : Option Error)
      → q.url.path ≡ m ++ b':' ∷ rest
      → m ≢ []
      → Lacks b':' m
      → d.browser m ≡ (some browser, x)
      → (u : Url) × (u.path ≡ rest)
        × (serve b schemas web fc encoders compliance accept ctx (some d) q e v s
            ≡ ret (
                Serve.serve_http b fc encoders compliance ctx browser (record q { url = u }) e v s))
  unfolding serve shift_browser_handler look_for with_browser handle
  reached ctx d q e v m rest browser x path ne plain answers =
      let (name, behind) =
        shift-path q.url b':' m rest (λ z. absurd (cons_path m rest b':' (sym path ∙ z)))
          (ap (λ (t : Bytes). shift_in_string t b':') path
            ∙ shift_in_string-append b':' m rest ne plain) in
      ((shift q.url b':').1, behind, rw (name, is_empty_of_ne m ne, answers) refl)

  -- In a server without filters, a path that names a device, an endpoint and a module reaches the
  -- handler of that module's browser on that device, at that endpoint, with the rest of the path,
  -- if the device and the browser are there.
  pub serve_http_reaches_browser :
      (device_id op m rest : Bytes) (e : Endpoint)
      (devices : Bytes → Result (Option (Device Browser))) (d : Device Browser) (browser : Browser)
      (x : Option Error)
      → Names op e
      → IsFor device_id (op ++ b'/' ∷ (m ++ b':' ∷ rest))
      → m ≢ []
      → Lacks b':' m
      → srv.devices ≡ some devices
      → devices device_id ≡ ok (some d)
      → d.browser m ≡ (some browser, x)
      → (u : Url) × (u.path ≡ rest)
        × (serve_http b schemas web fc encoders srv values r w s
            ≡ ret (
                Serve.serve_http b fc encoders compliance context browser
                  (record r { url = u })
                  e
                  (allow_origins w)
                  s))
  serve_http_reaches_browser device_id op m rest e devices d browser x n f ne plain g h k =
      let (p, tail, whole) = found_device device_id _ devices d f g h in
      let (a, ne_op) = Names-Lacks n in
      let (name, behind) =
        shift-path p b'/' op (m ++ b':' ∷ rest)
          (λ z. absurd (cons_path op (m ++ b':' ∷ rest) b'/' (sym tail ∙ z)))
          (ap (λ (t : Bytes). shift_in_string t b'/') tail
            ∙ shift_in_string-append b'/' op (m ++ b':' ∷ rest) ne_op a) in
      let (u, rest_path, answer) =
        reached context d (record r { url = (shift p b'/').1 }) e (allow_origins w) m rest browser x
          behind ne plain k in
      (
        u,
        rest_path,
        whole
            ∙ ap
                (λ (t : Bytes).
                  serve_restconf b schemas web fc encoders compliance accept context (some d) t
                    (record r { url = (shift p b'/').1 }) (allow_origins w) s)
                name
            ∙ named_endpoint n context (some d) (record r { url = (shift p b'/').1 })
                (allow_origins w)
            ∙ answer,
      )

  -- A server that has no map of devices, and no filters, panics on every path that names a device.
  serve_http_no_devices :
      (device_id tail : Bytes)
      → IsFor device_id tail
      → srv.devices ≡ none
      → serve_http b schemas web fc encoders srv values r w s ≡ panicked
  unfolding look_up with_device
  serve_http_no_devices device_id tail f g =
      let (p, rest, e) = dispatched device_id tail f in e ∙ rw g refl

  -- Where no filter stands before it, a request for a device that is not there is answered with
  -- the report that it is not found, by its id, and the application is left as it was.
  serve_http_unknown_device :
      (device_id tail : Bytes) (devices : Bytes → Result (Option (Device Browser)))
      → IsFor device_id tail
      → srv.devices ≡ some devices
      → devices device_id ≡ ok none
      → serve_http b schemas web fc encoders srv values r w s
        ≡ ret (
          report fc encoders compliance
              (not_found [] (codes ". device " ++ device_id))
              r
              accept
              (allow_origins w),
          s,
        )
  unfolding look_up or_not_found with_device refuse
  serve_http_unknown_device device_id tail devices f g h =
      let (p, rest, e) = dispatched device_id tail f in e ∙ rw (g, h) refl

  -- Where no filter stands before it, a request for the user interface of a device that has none
  -- panics.
  serve_http_no_ui :
      (device_id rest : Bytes) (devices : Bytes → Result (Option (Device Browser)))
      (d : Device Browser)
      → IsFor device_id (codes "ui" ++ b'/' ∷ rest)
      → srv.devices ≡ some devices
      → devices device_id ≡ ok (some d)
      → d.ui_source ≡ none
      → serve_http b schemas web fc encoders srv values r w s ≡ panicked
  unfolding serve_restconf beq serve_source serve_stream_source
  serve_http_no_ui device_id rest devices d f g h none_there =
      let (p, tail, whole) = found_device device_id _ devices d f g h in
      let (name, behind) =
        shift-path p b'/' (codes "ui") rest (λ z. absurd (cc (sym tail ∙ z)))
          (ap (λ (t : Bytes). shift_in_string t b'/') tail
            ∙ shift_in_string-append b'/' (codes "ui") rest (λ z. absurd (cc z)) (omega arith)) in
      whole ∙ rw (name, none_there) refl
