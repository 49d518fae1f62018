-- ===== src/Handler/Serve/Bodies.antt =====
-- Requests whose body cannot be read.
use restconf.Prelude.{◌≡◌, refl, ◌≢◌, ◌⊎◌, inl, inr, true, false, some}
use restconf.Text.{codes, beq}
use restconf.Errors.{Error, err, Fc}
use restconf.Http.{Request, Response}
use restconf.Http.Report.{Encoders, handle_err}
use restconf.Http.Laws.{IsUnsent, report_lem}
use restconf.Compliance.{ComplianceOptions}
use restconf.Handler.{
  Backend, Context, Endpoint, endpoint_data, endpoint_operations, endpoint_streams, endpoint_schema,
  request_node,
}
use restconf.Handler.Serve.{
  accepted, sent, finish, edit_from, is_operations, is_rpc_or_action, serve_method, serve_target,
}
use restconf.Handler.Serve.Guards.{Finds, answer, answer_of_Finds}

is_operations_of_ne : (e : Endpoint) → e ≢ endpoint_operations → is_operations e ≡ false
unfolding is_operations
is_operations_of_ne endpoint_data h = refl
is_operations_of_ne endpoint_operations h = absurd (h refl)
is_operations_of_ne endpoint_streams h = refl
is_operations_of_ne endpoint_schema h = refl

module _ {St Sel Node Browser : Type 0} (b : Backend St Sel Node Browser) (fc : Fc)
    (encoders : Encoders) where
  module _ (compliance : ComplianceOptions) (ctx : Context) (browser : Browser) (r : Request)
      (endpoint_id : Endpoint) (w : Response) (s : St) where
    abbrev reply : Response × St
    reply = answer b fc encoders compliance ctx browser r endpoint_id w s

    -- On an endpoint other than operations, a PATCH or PUT of a target whose body cannot be read
    -- leaves the application as it was, and is answered with the error's status, if nothing was
    -- sent before.
    serve_http_unreadable :
        (target : Sel) (e : Error)
        → Finds b fc encoders compliance ctx browser r endpoint_id w s (some target)
        → (r.method ≡ codes "PATCH") ⊎ (r.method ≡ codes "PUT")
        → endpoint_id ≢ endpoint_operations
        → request_node b r (sent b fc encoders compliance r) ≡ err e
        → IsUnsent w
        → (reply.0.status ≡ some (fc.http_status_code e)) × (reply.1 ≡ s)
    unfolding serve_target serve_method is_rpc_or_action beq edit_from finish handle_err
    serve_http_unreadable target e f m ne bad h =
        let sends =
          (report_lem fc encoders compliance e r (accepted b fc encoders compliance r) w h).0 in
        elim m [
          | inl patch ↦
              let test : beq r.method (codes "PATCH") ≡ true = rw patch refl in
              let a : beq r.method (codes "DELETE") ≡ false = rw patch refl in
              let g : beq r.method (codes "GET") ≡ false = rw patch refl in
              let c : beq r.method (codes "POST") ≡ false = rw patch refl in
              rw
                (
                  answer_of_Finds b fc encoders compliance ctx browser r endpoint_id w s target f,
                  test,
                  a,
                  g,
                  c,
                  is_operations_of_ne endpoint_id ne,
                  bad,
                )
                (sends, refl)
          | inr put ↦
              let test : beq r.method (codes "PUT") ≡ true = rw put refl in
              let a : beq r.method (codes "DELETE") ≡ false = rw put refl in
              let g : beq r.method (codes "GET") ≡ false = rw put refl in
              let p : beq r.method (codes "PATCH") ≡ false = rw put refl in
              let c : beq r.method (codes "POST") ≡ false = rw put refl in
              rw
                (
                  answer_of_Finds b fc encoders compliance ctx browser r endpoint_id w s target f,
                  test,
                  a,
                  g,
                  p,
                  c,
                  is_operations_of_ne endpoint_id ne,
                  bad,
                )
                (sends, refl)
        ]

    -- On an endpoint other than operations, a POST of a target that is no action reads its body as
    -- JSON whatever its media type says: if that fails, the application is left as it was, and the
    -- error's status is the answer, if nothing was sent before.
    serve_http_inserts_json :
        (target : Sel) (e : Error)
        → Finds b fc encoders compliance ctx browser r endpoint_id w s (some target)
        → r.method ≡ codes "POST"
        → b.is_action target ≡ false
        → endpoint_id ≢ endpoint_operations
        → b.read_json_io r.body ≡ err e
        → IsUnsent w
        → (reply.0.status ≡ some (fc.http_status_code e)) × (reply.1 ≡ s)
    unfolding serve_target serve_method is_rpc_or_action beq edit_from finish handle_err
    serve_http_inserts_json target e f post action ne bad h =
        let sends =
          (report_lem fc encoders compliance e r (accepted b fc encoders compliance r) w h).0 in
        let test : beq r.method (codes "POST") ≡ true = rw post refl in
        let a : beq r.method (codes "DELETE") ≡ false = rw post refl in
        let g : beq r.method (codes "GET") ≡ false = rw post refl in
        let p : beq r.method (codes "PATCH") ≡ false = rw post refl in
        let q : beq r.method (codes "PUT") ≡ false = rw post refl in
        rw
          (
            answer_of_Finds b fc encoders compliance ctx browser r endpoint_id w s target f,
            test,
            a,
            g,
            p,
            q,
            action,
            is_operations_of_ne endpoint_id ne,
            bad,
          )
          (sends, refl)
