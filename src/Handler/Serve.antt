-- ===== src/Handler/Serve.antt =====
-- ServeHTTP of browser_handler.go. The subscription to a notification is its beginning alone; the
-- events that follow are those of Handler/Stream.
pub mod Guards
pub mod Bodies
pub mod Calls
use restconf.Prelude.{
  ℕ, Bool, true, false, Option, none, some, List, [], ◌∷◌, ◌++◌, ◌&&◌, ◌||◌, not, ltb,
  if◌then◌else◌,
}
use restconf.Text.{Bytes, codes, beq}
use restconf.Errors.{Error, Result, ok, err, Fc}
use restconf.Http.{get, Request, Response, set_header, write_header, http_error}
use restconf.Http.Report.{Encoders, report, handle_err}
use restconf.Compliance.{ComplianceOptions, text_stream_mime_type}
use restconf.Wire.{get_wire_formatter}
use restconf.Handler.{
  Backend, Context, Endpoint, endpoint_data, endpoint_operations, node_wtr, with_remote_ip,
  set_content_type, node_rdr, request_node,
}
use restconf.Handler.Rpc.{read_input, send_action_output}

unfoldable pub is_data : Endpoint → Bool
is_data endpoint_data = true
is_data _ = false

unfoldable pub is_operations : Endpoint → Bool
is_operations endpoint_operations = true
is_operations _ = false

-- The header fields of an event stream, and the flush that sends them.
unfoldable pub begin_stream : Response → Response
begin_stream w =
    let typed =
      set_header (codes "Content-Type") (text_stream_mime_type ++ codes "; charset=utf-8") w in
    let uncached = set_header (codes "Cache-Control") (codes "no-cache") typed in
    let alive = set_header (codes "Connection") (codes "keep-alive") uncached in
    let unbuffered = set_header (codes "X-Accel-Buffering") (codes "no") alive in
    let shared = set_header (codes "Access-Control-Allow-Origin") (codes "*") unbuffered in
    write_header 200 (set_header (codes "Transfer-Encoding") (codes "identity") shared)

module _ {St Sel Node Browser : Type 0} (b : Backend St Sel Node Browser) (fc : Fc)
    (encoders : Encoders) where
  module _ (compliance : ComplianceOptions) (r : Request) where
    -- the media types of the request
    unfoldable pub accepted : Bytes
    accepted = get r.header (codes "Accept")

    unfoldable pub sent : Bytes
    sent = get r.header (codes "Content-Type")

    -- the error that a method leaves in `err`, and what is done with it at the end
    unfoldable pub finish : Option Error → Response → St → Response × St
    unfolding accepted
    finish e w s = ((handle_err fc encoders compliance e r accepted w).1, s)

    finish_edit : Option Error × St → Response → Response × St
    unfolding finish
    finish_edit (e, s) w = finish e w s

    edit_from :
        (Sel → Node → St → Option Error × St) → Sel → Result Node → Response → St → Response × St
    unfolding finish_edit finish
    edit_from edit target (err e) w s = finish (some e) w s
    edit_from edit target (ok input) w s = finish_edit (edit (b.config_only target) input s) w

    -- case "GET"
    unfoldable pub serve_get : Sel → Response → St → Response × St
    unfolding finish accepted
    serve_get target w s =
        if b.is_notification target
        then (begin_stream w, (b.notifications target s).1)
        else (let (e, w') =
              b.insert_into target (node_wtr accepted compliance) s
                (set_content_type b compliance accepted w) in
            finish e w' s)

    finish_output : Option Error × Response → St → Response × St
    unfolding finish
    finish_output (e, w) s = finish e w s

    -- from `outputSel, err := target.Action(input)` on
    after_action : Sel → Result (Option Sel) × St → Response → Response × St
    unfolding finish finish_output accepted
    after_action target (err e, s) w = finish (some e) w s
    after_action target (ok none, s) w = (write_header 204 w, s)
    after_action target (ok (some output), s) w =
        if b.has_output target
        then finish_output
            (send_action_output b accepted compliance (get_wire_formatter accepted) output target s
              (set_content_type b compliance accepted w))
            s
        else (write_header 204 w, s)

    with_input : Sel → Result Node → Response → St → Response × St
    unfolding finish after_action
    with_input target (err e) w s = finish (some e) w s
    with_input target (ok input) w s = after_action target (b.action target (some input) s) w

    -- case "POST", at an rpc or an action
    unfoldable pub serve_rpc : Sel → Response → St → Response × St
    unfolding with_input after_action sent
    serve_rpc target w s =
        if b.has_input target && r.has_content
        then with_input target (read_input b compliance sent r target) w s
        else after_action target (b.action target none s) w

    -- switch r.Method
    unfoldable pub serve_method : Sel → Response → St → Response × St
    unfolding edit_from finish_edit sent
    serve_method target w s =
        if beq r.method (codes "DELETE")
        then finish_edit (b.delete target s) w
        else if beq r.method (codes "GET")
        then serve_get target w s
        else if beq r.method (codes "PATCH")
        then edit_from b.upsert_from target (request_node b r sent) w s
        else if beq r.method (codes "PUT")
        then edit_from b.replace_from target (request_node b r sent) w s
        else if beq r.method (codes "POST")
        then (if b.is_action target
            then serve_rpc target w s
            else edit_from b.insert_from target (b.read_json_io r.body) w s)
        else if beq r.method (codes "OPTIONS")
        then (w, s)
        else (http_error (codes "Method Not Allowed") 405 w, s)

    unfoldable pub is_rpc_or_action : Sel → Bool
    is_rpc_or_action target = beq r.method (codes "POST") && b.is_action target

    -- the tests on the endpoint; the answer to a plain request on operations does not return
    unfoldable pub serve_target : Endpoint → Sel → Response → St → Response × St
    unfolding is_rpc_or_action
    serve_target endpoint_id target w s =
        if not (is_rpc_or_action target) && is_operations endpoint_id
        then serve_method target
            (http_error (codes "{+restconf}/operations is only intended for rpcs") 400 w) s
        else if is_rpc_or_action target
            && (not compliance.allow_rpc_under_data
                && (is_data endpoint_id && not (ltb 2 (b.path_len target))))
        then (
          http_error (codes "rpcs are located at {+restconf}/operations not {+restconf}/data") 400
              w,
          s,
        )
        else serve_method target w s

    -- what BuildConstraints answered
    constrained : Endpoint → Result (Option Sel) → Response → St → Response × St
    unfolding finish
    constrained endpoint_id (err e) w s = finish (some e) w s
    constrained endpoint_id (ok none) w s = (http_error (codes "Not Found") 404 w, s)
    constrained endpoint_id (ok (some target)) w s = serve_target endpoint_id target w s

    -- what Find answered
    found : Endpoint → Result (Option Sel) → Response → St → Response × St
    unfolding finish constrained
    found endpoint_id (err e) w s = finish (some e) w s
    found endpoint_id (ok target) w s =
        constrained endpoint_id (b.build_constraints target r.query) w s

  unfoldable pub serve_http :
      ComplianceOptions → Context → Browser → Request → Endpoint → Response → St → Response × St
  unfolding found
  serve_http compliance ctx browser r endpoint_id w s =
      found compliance r endpoint_id
        (b.find browser (with_remote_ip r.remote_addr ctx) (b.escaped_path r.url) s) w s
