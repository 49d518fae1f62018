-- ===== src/Handler/Serve/Calls.antt =====
-- Calls of rpcs and actions through ServeHTTP.
use restconf.Prelude.{
  ◌≡◌, refl, ◌∙◌, ◌⊎◌, inl, inr, Bool, true, false, Option, none, some, ◌++◌, ltb, if◌then◌else◌,
  append_assoc, ◌&&◌,
}
use restconf.Prelude.{not}
use restconf.Text.{Bytes, codes, beq}
use restconf.Errors.{Error, Result, ok, err, Fc, ◌>>=◌}
use restconf.Http.{Request, Response, write, write_header, set_header}
use restconf.Http.Report.{Encoders, handle_err}
use restconf.Http.Laws.{IsUnsent, IsUnbroken, report_lem}
use restconf.Compliance.{ComplianceOptions, is_xml}
use restconf.Wire.{get_wire_formatter, write_rpc_output_start}
use restconf.Handler.{Backend, Context, endpoint_operations, node_wtr, set_content_type}
use restconf.Handler.Rpc.{read_input}
use restconf.Handler.Rpc.Output.{send_action_output_lem}
use restconf.Handler.Serve.{
  accepted, sent, finish, serve_rpc, with_input, after_action, serve_method, is_rpc_or_action,
  is_data, is_operations, serve_target,
}
use restconf.Handler.Serve.Guards.{Finds, answer, answer_of_Finds}

not_data : (x y : Bool) → (x && (is_data endpoint_operations && y)) ≡ false
unfolding is_data
not_data true y = refl
not_data false y = refl

ok_inj : {A : Type 0} {x y : A} → ok x ≡ ok y → y ≡ x
ok_inj e = cc

module _ {St Sel Node Browser : Type 0} (b : Backend St Sel Node Browser) (fc : Fc)
    (encoders : Encoders) where
  module _ (compliance : ComplianceOptions) (ctx : Context) (browser : Browser) (r : Request)
      (w : Response) (s : St) where
    -- The call of a request: a POST of an action on the operations endpoint, with an input that is
    -- read if the action has one and the request has content.
    pub record Calls (target : Sel) (input : Option Node) : Type 0 where
      pub finds : Finds b fc encoders compliance ctx browser r endpoint_operations w s (some target)
      pub post : r.method ≡ codes "POST"
      pub action : b.is_action target ≡ true
      pub input_read :
          (if b.has_input target && r.has_content
            then (read_input b compliance (sent b fc encoders compliance r) r target
                >>= (λ n. ok (some n)))
            else ok none)
          ≡ ok input

    abbrev called : Response × St
    called = answer b fc encoders compliance ctx browser r endpoint_operations w s

    input_lem :
        (reads : Bool) (target : Sel) (n : Result Node) (input : Option Node)
        → (if reads then (n >>= (λ x. ok (some x))) else ok none) ≡ ok input
        → (if reads
            then with_input b fc encoders compliance r target n w s
            else after_action b fc encoders compliance r target (b.action target none s) w)
          ≡ after_action b fc encoders compliance r target (b.action target input s) w
    unfolding with_input
    input_lem true target (ok n) input e = rw (ok_inj e) refl
    input_lem true target (err x) input e = absurd (cc e)
    input_lem false target n input e = rw (ok_inj e) refl

    serve_rpc_lem :
        (target : Sel) (input : Option Node)
        → Calls target input
        → called ≡ after_action b fc encoders compliance r target (b.action target input s) w
    unfolding serve_target serve_method is_rpc_or_action is_operations beq serve_rpc
    serve_rpc_lem target input c =
        let test : beq r.method (codes "POST") ≡ true = rw c.post refl in
        let a : beq r.method (codes "DELETE") ≡ false = rw c.post refl in
        let g : beq r.method (codes "GET") ≡ false = rw c.post refl in
        let p : beq r.method (codes "PATCH") ≡ false = rw c.post refl in
        let q : beq r.method (codes "PUT") ≡ false = rw c.post refl in
        let kept : (not compliance.allow_rpc_under_data
              && (is_data endpoint_operations && not (ltb 2 (b.path_len target))))
            ≡ false =
          not_data (not compliance.allow_rpc_under_data) _ in
        rw
          (
            answer_of_Finds b fc encoders compliance ctx browser r endpoint_operations w s target
                c.finds,
            test,
            a,
            g,
            p,
            q,
            c.action,
            kept,
          )
          (input_lem (b.has_input target && r.has_content) target _ input c.input_read)

    -- A call that fails is answered with the error's status.
    serve_http_call_fails :
        (target : Sel) (input : Option Node) (e : Error) (s' : St)
        → Calls target input
        → b.action target input s ≡ (err e, s')
        → IsUnsent w
        → (called.0.status ≡ some (fc.http_status_code e)) × (called.1 ≡ s')
    unfolding after_action finish handle_err
    serve_http_call_fails target input e s' c f h =
        rw (serve_rpc_lem target input c, f)
          (
            (report_lem fc encoders compliance e r (accepted b fc encoders compliance r) w h).0,
            refl,
          )

    silent_lem :
        (target : Sel) (output : Option Sel) (s' : St)
        → b.has_output target ≡ false
        → w.status ≡ none
        → ((after_action b fc encoders compliance r target (ok output, s') w).0.status ≡ some 204)
          × (((after_action b fc encoders compliance r target (ok output, s') w).0.body ≡ w.body)
              × ((after_action b fc encoders compliance r target (ok output, s') w).1 ≡ s'))
    unfolding after_action write_header
    silent_lem target none s' e k = rw k (refl, (refl, refl))
    silent_lem target (some o) s' e k = rw (e, k) (refl, (refl, refl))

    -- A call that gives no output, or whose action declares none, is answered with 204 and nothing
    -- in the body, and the application is as the call left it.
    serve_http_call_silent :
        (target : Sel) (input : Option Node) (output : Option Sel) (s' : St)
        → Calls target input
        → b.action target input s ≡ (ok output, s')
        → (output ≡ none) ⊎ (b.has_output target ≡ false)
        → w.status ≡ none
        → (called.0.status ≡ some 204) × ((called.0.body ≡ w.body) × (called.1 ≡ s'))
    unfolding after_action write_header
    serve_http_call_silent target input output s' c f silent k = elim silent [
      | inl e ↦ rw (serve_rpc_lem target input c, f, e, k) (refl, (refl, refl))
      | inr e ↦ rw (serve_rpc_lem target input c, f) (silent_lem target output s' e k)
    ]

    -- The output of a call that succeeds is the body of the answer, between the two halves of the
    -- module's JSON envelope, if the client accepts JSON, the envelope is not disabled, the output
    -- is inserted by one write, and nothing was sent before on a connection that does not break.
    pub serve_http_call_lem :
        (target : Sel) (input : Option Node) (output : Sel) (bytes : Bytes) (s' : St)
        → Calls target input
        → b.action target input s ≡ (ok (some output), s')
        → b.has_output target ≡ true
        → compliance.disable_action_wrapper ≡ false
        → is_xml (accepted b fc encoders compliance r) ≡ false
        → ((v : Response)
            → IsUnbroken v
            → b.insert_into output (node_wtr (accepted b fc encoders compliance r) compliance) s' v
              ≡ write bytes v)
        → IsUnsent w
        → (called.0.body
            ≡ codes "{\""
              ++ ((b.original_module target).ident ++ (codes ":output\":" ++ (bytes ++ codes "}"))))
          × (called.1 ≡ s')
    unfolding after_action finish handle_err get_wire_formatter set_content_type set_header
        write_rpc_output_start
    serve_http_call_lem target input output bytes s' c f has wrapped json inserts h =
        let accept = accepted b fc encoders compliance r in
        let v = set_content_type b compliance accept w in
        let (a, (_, grown)) =
          send_action_output_lem b accept compliance output target s' bytes wrapped inserts v
            h.unbroken in
        rw (serve_rpc_lem target input c, f, has, json)
          (rw a (grown ∙ rw h.nothing (simp append_assoc), refl))
