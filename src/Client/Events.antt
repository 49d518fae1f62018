-- ===== src/Client/Events.antt =====
-- clientStream of client/client.go: what becomes of one event of the stream.
use restconf.Prelude.{ℕ, Option, none, some, ◌≡◌, refl, Bool-cases, inl, inr, ◌++◌, if◌then◌else◌}
use restconf.Text.{Bytes, codes}
use restconf.Errors.{Error, new, Result, ok, err}
use restconf.Compliance.{ComplianceOptions}
use restconf.Client.Node.{Json}

-- The Node of an event is nil, a node, or node.ErrorNode.
pub data EventNode (Node : Type 0) : Type 0 where
  nil : EventNode Node
  node : Node → EventNode Node
  error_node : Error → EventNode Node

-- A time is a number, and time.Time's zero value is 0.
pub record StreamEvent (Node : Type 0) : Type 0 where
  pub timestamp : ℕ
  pub node : EventNode Node

module _ {Node : Type 0} (json : Json Node) (parse_time : Bytes → Option ℕ) (now : ℕ) where
  failed : Bytes → StreamEvent Node
  failed text = record { timestamp = now; node = error_node (new text) }

  -- The error of reading the payload stays in the inner `err`: the outer one is nil, and `e` as it
  -- was declared.
  read_payload : ℕ → Result Node → StreamEvent Node
  read_payload time (err _) = record { timestamp = 0; node = nil }
  read_payload time (ok n) = record { timestamp = time; node = node n }

  with_time : Option ℕ → Bytes → json.Values → StreamEvent Node
  unfolding failed read_payload
  with_time none text body = failed (codes "eventTime in wrong format '" ++ (text ++ codes "'"))
  with_time (some t) text body = read_payload t (json.read_json_values body)

  with_time_text : Option Bytes → json.Values → StreamEvent Node
  unfolding failed with_time
  with_time_text none body = failed (codes "SSE message missing eventTime")
  with_time_text (some text) body = with_time (parse_time text) text body

  with_body : Option json.Values → json.Values → StreamEvent Node
  unfolding failed with_time_text
  with_body none payload = failed (codes "SSE message missing event payload")
  with_body (some body) payload = with_time_text (json.text payload (codes "eventTime")) body

  with_wrapper : Option json.Values → StreamEvent Node
  unfolding failed with_body
  with_wrapper none = failed (codes "SSE message missing ietf-restconf:notification wrapper")
  with_wrapper (some payload) = with_body (json.object payload (codes "event")) payload

  unmarshalled : ComplianceOptions → Bytes → Result json.Values → StreamEvent Node
  unfolding with_wrapper read_payload
  unmarshalled compliance event (err e) = record { timestamp = now; node = error_node e }
  unmarshalled compliance event (ok vals) =
      if compliance.disable_notification_wrapper
      then read_payload now (json.read_json_io (event, none))
      else with_wrapper (json.object vals (codes "ietf-restconf:notification"))

  unfoldable pub receive : ComplianceOptions → Bytes → StreamEvent Node
  unfolding unmarshalled
  receive compliance event = unmarshalled compliance event (json.decode (event, none))

  -- An event with a whole envelope and a time that can be parsed, but a payload that cannot be
  -- read, is delivered without a node and without its error, whether notifications are wrapped or
  -- not.
  receive_loses_error :
      (event text : Bytes) (vals payload body : json.Values) (time : ℕ) (e f : Error)
      (compliance : ComplianceOptions)
      → json.decode (event, none) ≡ ok vals
      → json.object vals (codes "ietf-restconf:notification") ≡ some payload
      → json.object payload (codes "event") ≡ some body
      → json.text payload (codes "eventTime") ≡ some text
      → parse_time text ≡ some time
      → json.read_json_values body ≡ err e
      → json.read_json_io (event, none) ≡ err f
      → receive compliance event ≡ record { timestamp = 0; node = nil }
  unfolding receive
  receive_loses_error event text vals payload body time e f compliance a b c d g h i =
      elim (Bool-cases compliance.disable_notification_wrapper) [
        | inl w ↦ rw (a, w, i) refl
        | inr w ↦ rw (a, w, b, c, d, g, h) refl
      ]
