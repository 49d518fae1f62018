-- ===== src/Stock/Manage.antt =====
-- WebServerNode of stock/web.go: the management of a web server, over the Tls objects that there are.
use restconf.Prelude.{
  some_inj, ℕ, Bool, true, false, Option, none, some, List, [], ◌∷◌, ◌++◌, ◌≡◌, refl, sym, ap, ◌∙◌,
  ◌<◌, arith, length, if◌then◌else◌,
}
use restconf.Text.{Bytes, codes, beq}
use restconf.Errors.{Error}
use restconf.Stock.{HttpServerOptions, HttpServer, apply_options, same_options, listener_of}
use restconf.Stock.Lifecycle.{same_options_iff, same_options_ne}
use restconf.Stock.Tls.{Tls, new_tls}

-- The node holds a copy of the options from when it was made.
pub record WebServerNode : Type 0 where
  pub options : HttpServerOptions

-- The child that it answers with: TlsNode of an object, or the metrics.
pub data WebChild : Type 0 where
  tls_node : (tls : ℕ) → WebChild
  metrics_node : WebChild

unfoldable pub web_server_node : HttpServer → WebServerNode
web_server_node service = record { options = service.options }

tls_if_any : Option ℕ → Option WebChild
tls_if_any none = none
tls_if_any (some t) = some (tls_node t)

module _ {Cert : Type 0} where
  -- `tls` are the objects that were made
  new_options :
      (new : Bool) → HttpServerOptions → List (Tls Cert) → HttpServerOptions × List (Tls Cert)
  new_options true options tls = (record options { tls = some (length tls) }, tls ++ new_tls ∷ [])
  new_options false options tls = (options, tls)

  -- OnChild
  unfoldable pub web_child :
      (ident : Bytes) (new : Bool)
      → WebServerNode
      → List (Tls Cert)
      → Option WebChild × WebServerNode × List (Tls Cert)
  unfolding new_options tls_if_any
  web_child ident new n tls =
      let (options, tls') = new_options new n.options tls in
      if beq ident (codes "tls")
      then (tls_if_any options.tls, record { options = options }, tls')
      else if beq ident (codes "metrics")
      then (some metrics_node, n, tls)
      else (none, n, tls)

-- OnEndEdit; `base` is the answer of the base, which ReflectChild makes
unfoldable pub web_end_edit :
    (base : Option Error) → WebServerNode → HttpServer → Option Error × HttpServer
web_end_edit (some e) n service = (some e, service)
web_end_edit none n service = (none, apply_options n.options service)

same_self : (o : HttpServerOptions) → same_options o o ≡ true
same_self o = (same_options_iff o o).1 refl

module _ {Cert : Type 0} (service : HttpServer) (tls : List (Tls Cert)) (t : ℕ) where
  -- Editing the Tls that a web server listens with leaves the server as it is: the end of the edit
  -- compares the options with themselves, whatever was changed of the object. A Tls that the edit
  -- makes is listened with, by a new listener.
  web_end_edit_tls :
      service.options.tls ≡ some t
      → t < length tls
      → let old = web_child (codes "tls") false (web_server_node service) tls in
        let made = web_child (codes "tls") true (web_server_node service) tls in
        ((old.0 ≡ some (tls_node t)) × (web_end_edit none old.1 service ≡ (none, service)))
        × ((made.0 ≡ some (tls_node (length tls)))
            × ((web_end_edit none made.1 service).1.made
                ≡ service.made
                  ++ (listener_of (record service.options { tls = some (length tls) }), true) ∷ []))
  unfolding web_child web_end_edit web_server_node beq apply_options
  web_end_edit_tls e below =
      let o = service.options in
      let o' = record service.options { tls = some (length tls) } in
      let changed : same_options o' o ≡ false =
        same_options_ne o' o
          (λ q. absurd (omega (arith, some_inj (sym e ∙ sym (ap HttpServerOptions.tls q))))) in
      ((rw e refl, rw (same_self o) refl), (refl, rw changed refl))
