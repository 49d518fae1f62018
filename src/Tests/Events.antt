-- ===== src/Tests/Events.antt =====
-- Event streams at concrete payloads.
use restconf.Prelude.{◌≡◌, true, [], ◌∷◌, arith}
use restconf.Text.{codes}
use restconf.Wire.{Module, xml_wire_format, xml_notification_line}
use restconf.Sse.{decode_sse, frame, notification_payload}
use restconf.Sse.Frames.{stream_of, decode_sse-stream_of}
use restconf.Sse.Newline.{xml_notification_lost}

decode_sse-stream_of_example :
    decode_sse (stream_of (codes "one" ∷ codes "two" ∷ [])) ≡ codes "one" ∷ codes "two" ∷ []
decode_sse-stream_of_example =
    decode_sse-stream_of (codes "one" ∷ codes "two" ∷ [])
      ((omega arith, (λ e. absurd (cc e))), ((omega arith, (λ e. absurd (cc e))), tt))

abbrev car : Module
car = record { ident = codes "car"; namespace = codes "urn:car" }

xml_notification_lost_example :
    decode_sse (frame (notification_payload true xml_wire_format car (codes "2024") (codes "<a/>")))
    ≡ xml_notification_line ∷ []
xml_notification_lost_example =
    xml_notification_lost car (codes "2024") (codes "<a/>") (omega arith) (omega arith)
      (omega arith)
