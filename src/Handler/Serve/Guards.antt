-- ===== src/Handler/Serve/Guards.antt =====
-- What ServeHTTP lets through to the application, and what it refuses.
use restconf.Prelude.{ℕ, ◌≤◌, ◌≡◌, refl, ◌≢◌, true, false, Option, none, some, arith, ltb}
use restconf.Text.{codes, beq}
use restconf.Errors.{Error, ok, Fc}
use restconf.Http.{Request, Response, http_error}
use restconf.Http.Report.{Encoders, handle_err}
use restconf.Http.Laws.{http_error-status, report_late}
use restconf.Compliance.{ComplianceOptions}
use restconf.Handler.{
  Backend, Context, Endpoint, endpoint_data, endpoint_operations, with_remote_ip,
}
use restconf.Handler.Serve.{
  is_data, is_operations, accepted, finish, finish_edit, serve_method, is_rpc_or_action,
  serve_target, serve_http,
}

module _ {St Sel Node Browser : Type 0} (b : Backend St Sel Node Browser) (fc : Fc)
    (encoders : Encoders) where
  module _ (compliance : ComplianceOptions) (ctx : Context) (browser : Browser) (r : Request)
      (endpoint_id : Endpoint) (w : Response) (s : St) where
    -- The request's path leads to the target, with the query's constraints.
    pub record Finds (target : Option Sel) : Type 0 where
      pub unconstrained : Option Sel
      pub at_path :
          b.find browser (with_remote_ip r.remote_addr ctx) (b.escaped_path r.url) s
          ≡ ok unconstrained
      pub constraints : b.build_constraints unconstrained r.query ≡ ok target

    -- The answer.
    abbrev pub answer : Response × St
    answer = serve_http b fc encoders compliance ctx browser r endpoint_id w s

    pub answer_of_Finds :
        (target : Sel)
        → Finds (some target)
        → answer ≡ serve_target b fc encoders compliance r endpoint_id target w s
    unfolding serve_http
    answer_of_Finds target f = rw (f.at_path, f.constraints) refl

    -- A path that leads nowhere is answered with 404, and the application is left as it was.
    serve_http_not_found :
        Finds none → w.status ≡ none → (answer.0.status ≡ some 404) × (answer.1 ≡ s)
    unfolding serve_http
    serve_http_not_found f h =
        rw (f.at_path, f.constraints) (http_error-status (codes "Not Found") 404 w h, refl)

    -- Neither an edit nor a call, nor the subscription to a notification.
    pub record IsSafe : Type 0 where
      pub not_delete : r.method ≢ codes "DELETE"
      pub not_patch : r.method ≢ codes "PATCH"
      pub not_put : r.method ≢ codes "PUT"
      pub not_post : r.method ≢ codes "POST"
      pub no_notification : (target : Sel) → b.is_notification target ≡ false

    finish_edit_late :
        (x : Option Error × St) (v : Response) (code : ℕ)
        → v.status ≡ some code
        → ((finish_edit b fc encoders compliance r x v).0.status ≡ some code)
          × ((finish_edit b fc encoders compliance r x v).1 ≡ x.1)
    unfolding finish_edit finish handle_err
    finish_edit_late (none, s') v code h = (h, refl)
    finish_edit_late (some e, s') v code h = (
      (report_late fc encoders compliance e r (accepted b fc encoders compliance r) v code h).0,
      refl,
    )

    -- In strict mode the POST of an rpc, whose path is no longer than two segments, is refused
    -- under the data endpoint with 400, and the application is left as it was.
    pub serve_http_rpc_refused :
        (target : Sel)
        → Finds (some target)
        → r.method ≡ codes "POST"
        → b.is_action target ≡ true
        → compliance.allow_rpc_under_data ≡ false
        → endpoint_id ≡ endpoint_data
        → b.path_len target ≤ 2
        → w.status ≡ none
        → (answer.0.status ≡ some 400) × (answer.1 ≡ s)
    unfolding serve_target is_rpc_or_action beq is_operations is_data
    serve_http_rpc_refused target f post action strictly under_data short h =
        let short_path : ltb 2 (b.path_len target) ≡ false = ground arith in
        rw (answer_of_Finds target f, post, action, under_data, strictly, short_path)
          (
            http_error-status
                (codes "rpcs are located at {+restconf}/operations not {+restconf}/data") 400 w h,
            refl,
          )

    -- A DELETE on the operations endpoint is answered with 400, and deletes the target all the same.
    pub serve_http_deletes_on_operations :
        (target : Sel)
        → Finds (some target)
        → r.method ≡ codes "DELETE"
        → endpoint_id ≡ endpoint_operations
        → w.status ≡ none
        → (answer.0.status ≡ some 400) × (answer.1 ≡ (b.delete target s).1)
    unfolding serve_target is_rpc_or_action serve_method beq is_operations
    serve_http_deletes_on_operations target f method operations h =
        let deletes : beq r.method (codes "DELETE") ≡ true = rw method refl in
        let no_rpc : beq r.method (codes "POST") ≡ false = rw method refl in
        rw (answer_of_Finds target f, deletes, no_rpc, operations)
          (finish_edit_late (b.delete target s)
            (http_error (codes "{+restconf}/operations is only intended for rpcs") 400 w) 400
            (http_error-status (codes "{+restconf}/operations is only intended for rpcs") 400 w h))
