-- ===== src/Client/Reaches.antt =====
-- From the requests of a client (client/client.go) to the handlers of the server (server.go).
use restconf.Prelude.{◌≡◌, sym, ◌∙◌, ◌≢◌, Option, some, List, [], ◌∷◌, ◌++◌, subst}
use restconf.Text.{Bytes, codes}
use restconf.Text.Laws.{Lacks}
use restconf.Url.{Url}
use restconf.Errors.{Error, Result, ok, Fc, ret}
use restconf.Http.{Request, Response}
use restconf.Http.Report.{Encoders}
use restconf.Compliance.{ComplianceOptions}
use restconf.Handler.{Backend, Endpoint}
use restconf.Handler.Serve
use restconf.Server.{Device, Server, device_address}
use restconf.Server.Pages.{Web}
use restconf.Server.Route.{Schemas, allow_origins, serve_http}
use restconf.Server.Route.Paths.{Names, context, compliance, serve_http_reaches_browser}
use restconf.Client.{Address, NodePath, full_url, new_address}
use restconf.Client.Location.{endpoint_name, server_path, new_address_device}

append_cancel : (a b c : Bytes) → a ++ b ≡ a ++ c → b ≡ c
append_cancel [] b c e = e
append_cancel (x ∷ a) b c e = append_cancel a b c (cc e)

ok_inj : {a b : Address} → ret (ok a) ≡ ret (ok b) → a ≡ b
ok_inj e = cc e

module _ {St Sel Node Browser : Type 0} (b : Backend St Sel Node Browser)
    (schemas : Schemas Browser) (web : Web) (fc : Fc) (encoders : Encoders) (srv : Server Browser)
    (values : List (Bytes × Bytes)) (r : Request) (w : Response) (s : St) where
  -- Let a client be made for the address that DeviceAddress gives a device, and let the server get
  -- the path of the URL that the client makes for a node, which needs no escapes. Then the server
  -- hands the request to the browser of the node's module on that device, at the endpoint that
  -- the client has chosen, with the node's own path, if it has no filters.
  pub client_reaches_browser :
      (parse_host : Bytes → Result Bytes) (origin id host : Bytes) (a : Address)
      (client_compliance : ComplianceOptions) (p : NodePath) (e : Endpoint)
      (devices : Bytes → Result (Option (Device Browser))) (d : Device Browser) (browser : Browser)
      (x : Option Error)
      → Lacks b'=' origin
      → Lacks b'=' id
      → Lacks b'/' id
      → id ≢ []
      → parse_host ((origin ++ device_address id) ++ codes "/") ≡ ok host
      → new_address parse_host (origin ++ device_address id) ≡ ret (ok a)
      → full_url a client_compliance p [] ≡ origin ++ r.url.path
      → Names (endpoint_name client_compliance p) e
      → p.module_ident ≢ []
      → Lacks b':' p.module_ident
      → srv.filters ≡ []
      → srv.devices ≡ some devices
      → devices id ≡ ok (some d)
      → d.browser p.module_ident ≡ (some browser, x)
      → (u : Url) × (u.path ≡ p.string_no_module)
        × (serve_http b schemas web fc encoders srv values r w s
            ≡ ret (
                Serve.serve_http b fc encoders
                  (compliance b schemas web fc encoders srv values r w s)
                  (context b schemas web fc encoders srv values r w s)
                  browser
                  (record r { url = u })
                  e
                  (allow_origins w)
                  s))
  client_reaches_browser parse_host origin id host a client_compliance p e devices d browser x h k l
        ne parses made sent named ne_m plain unfiltered g i j =
      let (a', made', (_, urls)) = new_address_device parse_host origin id host h k l ne parses in
      let same : a' ≡ a = ok_inj (sym made' ∙ made) in
      let url : full_url a client_compliance p [] ≡ origin ++ server_path id client_compliance p =
        subst
          (λ (t : Address).
            full_url t client_compliance p [] ≡ origin ++ server_path id client_compliance p)
          same (urls client_compliance p) in
      let path : r.url.path ≡ server_path id client_compliance p =
        append_cancel origin r.url.path (server_path id client_compliance p) (sym sent ∙ url) in
      serve_http_reaches_browser b schemas web fc encoders srv values r w s id
        (endpoint_name client_compliance p) p.module_ident p.string_no_module e devices d browser x
        named (record { whole_path = path; no_slash = l; named = ne; unfiltered = unfiltered }) ne_m
        plain g i j
