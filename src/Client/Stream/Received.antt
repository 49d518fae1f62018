-- ===== src/Client/Stream/Received.antt =====
-- The events of a stream (client/client.go), up to the server's notifications (browser_handler.go).
use restconf.Prelude.{
  ℕ, zero, suc, ◌≤◌, Option, none, some, List, [], ◌∷◌, ◌≡◌, refl, arith, length, get_elem?,
}
use restconf.Text.{Bytes, codes}
use restconf.Errors.{Error, ok, err}
use restconf.Compliance.{ComplianceOptions}
use restconf.Sse.{decode_sse}
use restconf.Client.{Address, NodePath}
use restconf.Client.Node.{Json}
use restconf.Client.Events.{StreamEvent, error_node, node, receive}
use restconf.Client.Stream.{StreamNetwork, events, stream_request, client_stream, event_at}

get_elem?_beyond {ℓ} : {A : Type ℓ} (xs : List A) (i : ℕ) → length xs ≤ i → get_elem? xs i ≡ none
get_elem?_beyond [] i h = refl
get_elem?_beyond (x ∷ xs) zero h = absurd (omega arith)
get_elem?_beyond (x ∷ xs) (suc i) h = get_elem?_beyond xs i (omega arith)

module _ {Node : Type 0} (json : Json Node) (parse_time : Bytes → Option ℕ) (now : ℕ)
    (compliance : ComplianceOptions) where
  -- The parts of an event in the envelope of RFC 8040, section 6.4.
  pub record Reads (event : Bytes) (time : ℕ) (n : Node) : Type 0 where
    pub vals : json.Values
    pub payload : json.Values
    pub body : json.Values
    pub text : Bytes
    pub decoded : json.decode (event, none) ≡ ok vals
    pub wrapper : json.object vals (codes "ietf-restconf:notification") ≡ some payload
    pub event_body : json.object payload (codes "event") ≡ some body
    pub event_time : json.text payload (codes "eventTime") ≡ some text
    pub parsed : parse_time text ≡ some time
    pub read : json.read_json_values body ≡ ok n

  -- After the end of a stream whose request was answered, its channel does not close: every
  -- further receive gets an error, if the empty text is no JSON.
  pub client_stream_never_ends :
      (network : StreamNetwork) (address : Address) (p : NodePath) (status : ℕ) (body : Bytes)
      (e : Error)
      → network.refuses_url (stream_request address compliance p).url ≡ none
      → network.send (stream_request address compliance p) ≡ ok (status, body)
      → json.decode ([], none) ≡ err e
      → (i : ℕ) → length (decode_sse body) ≤ i
      → (received : ℕ → StreamEvent Node) × (client_stream json parse_time now compliance network
            address p
          ≡ ok (events received))
        × (received i ≡ record { timestamp = now; node = error_node e })
  unfolding client_stream event_at receive
  client_stream_never_ends network address p status body e good sent no_json i late = (
    event_at json parse_time now compliance body,
    rw (good, sent) refl,
    rw (get_elem?_beyond (decode_sse body) i late, no_json) refl,
  )
