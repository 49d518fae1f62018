-- ===== src/Client/Stream.antt =====
-- clientStream of client/client.go: its request, and the events of its channel. What a receiver gets
-- from the channel at one time after another is a function of the number of events before.
pub mod Received
use restconf.Prelude.{
  ℕ, zero, suc, Bool, true, false, Option, none, some, List, [], ◌∷◌, ◌++◌, get_elem?,
  if◌then◌else◌,
}
use restconf.Text.{Bytes, codes}
use restconf.Errors.{Error, Result, ok, err, ◌>>=◌}
use restconf.Compliance.{
  ComplianceOptions, same_options, simplified, simplified_compliance_param, text_stream_mime_type,
}
use restconf.Sse.{decode_sse}
use restconf.Client.{Address, NodePath, HttpResponse}
use restconf.Client.Node.{Json}
use restconf.Client.Events.{StreamEvent, error_node, receive}

-- The request of a stream, with its query.
pub record StreamRequest : Type 0 where
  pub url : Bytes
  pub query : List (Bytes × Bytes)
  pub accept : Bytes

-- `refuses_url` is http.NewRequest's verdict on a URL; `send` is Do of the client. The body of an
-- answer is what arrives until its end.
pub record StreamNetwork : Type 0 where
  pub refuses_url : Bytes → Option Error
  pub send : StreamRequest → Result (ℕ × Bytes)

-- What comes out of the channel: a single error and then nothing, or an event for every receive.
pub data Channel (Node : Type 0) : Type 0 where
  only : StreamEvent Node → Channel Node
  events : (ℕ → StreamEvent Node) → Channel Node

unfoldable pub stream_request : Address → ComplianceOptions → NodePath → StreamRequest
stream_request address compliance p = record {
  url = address.data_url ++ (p.module_ident ++ b':' ∷ p.string_no_module);
  query = if same_options compliance simplified then (simplified_compliance_param, []) ∷ [] else [];
  accept = text_stream_mime_type;
}

module _ {Node : Type 0} (json : Json Node) (parse_time : Bytes → Option ℕ) (now : ℕ)
    (compliance : ComplianceOptions) where
  or_nil : Option Bytes → Bytes
  or_nil none = []
  or_nil (some event) = event

  -- The loop's receive from the channel of decodeSse: once that is closed it yields nil.
  unfoldable pub event_at : Bytes → ℕ → StreamEvent Node
  unfolding or_nil
  event_at body i = receive json parse_time now compliance (or_nil (get_elem? (decode_sse body) i))

  -- The status of the answer is not looked at.
  answered : Result (ℕ × Bytes) → Channel Node
  unfolding event_at
  answered (err e) = only (record { timestamp = now; node = error_node e })
  answered (ok (status, body)) = events (event_at body)

  opened : StreamNetwork → Option Error → StreamRequest → Result (Channel Node)
  unfolding answered
  opened network (some e) req = err e
  opened network none req = ok (answered (network.send req))

  unfoldable pub client_stream : StreamNetwork → Address → NodePath → Result (Channel Node)
  unfolding opened
  client_stream network address p =
      let req = stream_request address compliance p in
      opened network (network.refuses_url req.url) req

  sent_at : Channel Node → ℕ → Option (StreamEvent Node)
  sent_at (only e) zero = some e
  sent_at (only e) (suc i) = none
  sent_at (events f) i = some (f i)

  -- OnNotify of client/node.go: what it sends, as the node and the time of r.SendWhen, in the i-th
  -- place, until it is closed; or the error of clientStream
  unfoldable pub on_notify :
      StreamNetwork → Address → NodePath → Result (ℕ → Option (StreamEvent Node))
  unfolding sent_at
  on_notify network address p =
      client_stream network address p >>= (λ channel. ok (sent_at channel))
