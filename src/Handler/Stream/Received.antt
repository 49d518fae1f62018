-- ===== src/Handler/Stream/Received.antt =====
-- What a client decodes of the stream that the callback writes.
use restconf.Prelude.{
  ◌≡◌, refl, sym, ap, ◌∙◌, ◌≢◌, inl, inr, false, Option, none, some, List, [], ◌∷◌, ◌++◌,
  append_assoc, append-nil,
}
use restconf.Prelude.{All, not}
use restconf.Text.{Bytes}
use restconf.Text.Laws.{Lacks}
use restconf.Errors.{Result-cases, Error, Result, ok, err, Fc}
use restconf.Http.{Response, write}
use restconf.Http.Laws.{IsUnbroken, write_lem}
use restconf.Compliance.{ComplianceOptions, is_xml}
use restconf.Wire.{Module, get_wire_formatter}
use restconf.Sse.{decode_sse, frame}
use restconf.Sse.Frames.{stream_of, IsPayload, decode_sse-stream_of}
use restconf.Sse.Newline.{json_notification-IsPayload}
use restconf.Handler.{NodeWriter, node_wtr}
use restconf.Handler.Stream.{
  Notification, payload, send_notification, send_notifications, written, send_payload,
}

-- An event that the writer encodes has no line feed and is not empty, and the time has no line feed.
pub record IsOneLine (wtr : NodeWriter) (n : Notification) : Type 0 where
  pub etime : Lacks b'\n' n.etime
  pub event : (bytes : Bytes) → n.event wtr ≡ ok bytes → Lacks b'\n' bytes × (bytes ≢ [])

-- With the payload in front, if there is one.
abbrev pub collect : Result Bytes → List Bytes → List Bytes
collect (ok p) ps = p ∷ ps
collect (err e) ps = ps

stream_of-collect :
    (p : Result Bytes) (ps : List Bytes)
    → stream_of (collect p []) ++ stream_of ps ≡ stream_of (collect p ps)
stream_of-collect (ok p) ps = rw (append-nil (frame p)) refl
stream_of-collect (err e) ps = refl

module _ (fc : Fc) (compliance : ComplianceOptions) (accept_type : Bytes) (m : Module) where
  -- The payloads of the notifications that are encoded.
  abbrev pub payloads : List Notification → List Bytes
  payloads [] = []
  payloads (n ∷ ns) = collect (payload fc compliance accept_type m n) (payloads ns)

  written-body : (x : Option Error × Response) → (written fc compliance accept_type m x).1 ≡ x.1
  unfolding written
  written-body (none, w) = refl
  written-body (some e, w) = refl

  send_payload_lem :
      (p : Result Bytes) (w : Response)
      → IsUnbroken w
      → IsUnbroken (send_payload fc compliance accept_type m p w).1
        × ((send_payload fc compliance accept_type m p w).1.body
            ≡ w.body ++ stream_of (collect p []))
  unfolding send_payload
  send_payload_lem (err e) w h = (h, sym (append-nil w.body))
  send_payload_lem (ok p) w h =
      let (a, (b, c)) = write_lem (frame p) w h in
      rw (written-body (write (frame p) w), c, append-nil (frame p)) (b, refl)

  send_notifications_lem :
      (ns : List Notification) (w : Response)
      → IsUnbroken w
      → (send_notifications fc compliance accept_type m ns w).1.body
        ≡ w.body ++ stream_of (payloads ns)
  unfolding send_notifications send_notification
  send_notifications_lem [] w h = sym (append-nil w.body)
  send_notifications_lem (n ∷ ns) w h =
      let one = send_payload_lem (payload fc compliance accept_type m n) w h in
      let (b, c) = one in
      send_notifications_lem ns _ b
      ∙ ap (λ (x : Bytes). x ++ stream_of (payloads ns)) c
      ∙ append_assoc w.body _ _
      ∙ ap (◌++◌ w.body) (stream_of-collect (payload fc compliance accept_type m n) (payloads ns))

  payloads-IsPayload :
      is_xml accept_type ≡ false
      → (ns : List Notification) → All (IsOneLine (node_wtr accept_type compliance)) ns
      → All IsPayload (payloads ns)
  unfolding payload get_wire_formatter
  payloads-IsPayload json [] h = tt
  payloads-IsPayload json (n ∷ ns) h =
      let rest = payloads-IsPayload json ns h.1 in
      elim (Result-cases (n.event (node_wtr accept_type compliance))) [
        | inl (bytes, e) ↦
            let (a, b) = h.0.event bytes e in
            rw (e, json)
              (
                json_notification-IsPayload m n.etime bytes
                    (not compliance.disable_notification_wrapper) h.0.etime a b,
                rest,
              )
        | inr (x, e) ↦ rw e rest
      ]

  -- Over a connection that does not break, from an empty body, a client that accepts JSON decodes
  -- exactly the notifications that were encoded, in their order, if no time and no encoding holds
  -- a line feed and no encoding is empty; a notification that cannot be encoded is left out and
  -- does not disturb the others.
  pub send_notifications_received :
      (ns : List Notification) (w : Response)
      → is_xml accept_type ≡ false
      → All (IsOneLine (node_wtr accept_type compliance)) ns
      → IsUnbroken w
      → w.body ≡ []
      → decode_sse (send_notifications fc compliance accept_type m ns w).1.body ≡ payloads ns
  send_notifications_received ns w json h k e =
      rw (send_notifications_lem ns w k, e)
        (decode_sse-stream_of (payloads ns) (payloads-IsPayload json ns h))
