-- ===== src/Client/Node.antt =====
-- client/node.go: the requests of a client's node.
pub mod Failures
use restconf.Prelude.{
  ℕ, Bool, true, false, not, ◌&&◌, Option, none, some, List, [], ◌∷◌, ◌++◌, if◌then◌else◌,
}
use restconf.Text.{Bytes, codes, is_empty}
use restconf.Errors.{Error, new, Result, ok, err, Run, panicked, ret, is_not_found, ◌>>=◌}
use restconf.Compliance.{ComplianceOptions}
use restconf.Handler.{NodeWriter, json_wtr}
use restconf.Client.{NodePath, Address, Network, client_do}

-- A selection that is inserted into a writer on a buffer gives the bytes, or an error.
abbrev pub Insertion : Type 0
Insertion = NodeWriter → Result Bytes

-- The readers of JSON, on a content and the error that ends the reading of it: nodeutil.ReadJSONIO; and json.Decoder's first value, its member that is an
-- object, and nodeutil.ReadJSONValues of one.
pub record Json (Node : Type 0) : Type 1 where
  pub Values : Type 0
  pub read_json_io : Bytes × Option Error → Result Node
  pub decode : Bytes × Option Error → Result Values
  pub object : Values → Bytes → Option Values
  pub text : Values → Bytes → Option Bytes
  pub read_json_values : Values → Result Node

-- jsonWtr
unfoldable pub json_writer : ComplianceOptions → NodeWriter
json_writer compliance = json_wtr compliance.qualify_namespace_disabled

module _ {Node : Type 0} (json : Json Node) where
  some_node : Result Node → Result (Option Node)
  some_node (ok n) = ok (some n)
  some_node (err e) = err e

  read_all : Bytes × Option Error → Result (Option Node)
  unfolding some_node
  read_all (content, some e) = err e
  read_all (content, none) =
      if is_empty content then ok none else some_node (json.read_json_io (content, none))

  -- A reader that is nil is closed all the same.
  unfoldable pub json_node : Option (Bytes × Option Error) → Run (Result (Option Node))
  unfolding read_all
  json_node none = panicked
  json_node (some body) = ret (read_all body)

  module _ {St : Type 0} (network : Network St) (address : Address)
      (compliance : ComplianceOptions) where
    got : Result (Option (Bytes × Option Error)) × St → Run (Result (Option Node) × St)
    got (err e, s) = ret (err e, s)
    got (ok resp, s) = elim (json_node resp) [ panicked ↦ panicked | ret n ↦ ret (n, s) ]

    unfoldable pub get : NodePath → Bytes → St → Run (Result (Option Node) × St)
    unfolding got
    get p params s = got (client_do network address compliance (codes "GET") params p [] s)

    requested : Result (Option (Bytes × Option Error)) × St → Result (Option Node) × St
    unfolding read_all
    requested (err e, s) = (err e, s)
    requested (ok none, s) = (ok none, s)
    requested (ok (some body), s) = (read_all body, s)

    request_with : Bytes → NodePath → Result Bytes → St → Result (Option Node) × St
    unfolding requested
    request_with method p (err e) s = (err e, s)
    request_with method p (ok payload) s =
        requested (client_do network address compliance method [] p payload s)

    unfoldable pub payload_of : Option Insertion → Result Bytes
    payload_of none = ok []
    payload_of (some insert) = insert (json_writer compliance)

    unfoldable pub request : Bytes → NodePath → Option Insertion → St → Result (Option Node) × St
    unfolding request_with payload_of
    request method p input s = request_with method p (payload_of input) s

    navigated : Result (Option Node) × St → (Bool × Option Error) × St
    navigated (ok _, s) = ((true, none), s)
    navigated (err e, s) = if is_not_found e then ((false, none), s) else ((false, some e), s)

    unfoldable pub valid_navigation : NodePath → St → (Bool × Option Error) × St
    unfolding navigated
    valid_navigation target s = navigated (request (codes "OPTIONS") target none s)

    -- `{"<module>:input":` and `}` around an insertion
    wrapped_input : NodePath → Bytes → Bytes
    wrapped_input p content =
        if compliance.disable_action_wrapper
        then content
        else codes "{\"" ++ (p.original_ident ++ (codes ":input\":" ++ (content ++ codes "}")))

    unfoldable pub action_payload : NodePath → Option Insertion → Result Bytes
    unfolding wrapped_input
    action_payload p none = ok []
    action_payload p (some insert) =
        insert (json_writer compliance) >>= (λ content. ok (wrapped_input p content))

    member : NodePath → Option json.Values → Result (Option Node)
    unfolding some_node
    member p none =
        err (new (codes "'" ++ (p.original_ident ++ codes ":output' missing in output wrapper")))
    member p (some vals) = some_node (json.read_json_values vals)

    -- the answer, unwrapped
    unfoldable pub output_of : NodePath → Bytes × Option Error → Result (Option Node)
    unfolding member some_node
    output_of p body =
        if compliance.disable_action_wrapper
        then some_node (json.read_json_io body)
        else (json.decode body
            >>= (λ vals. member p (json.object vals (p.original_ident ++ codes ":output"))))

    answered : NodePath → Result (Option (Bytes × Option Error)) × St → Result (Option Node) × St
    answered p (err e, s) = (err e, s)
    answered p (ok none, s) = (ok none, s)
    answered p (ok (some body), s) = (output_of p body, s)

    called : NodePath → Result Bytes → St → Result (Option Node) × St
    unfolding answered
    called p (err e) s = (err e, s)
    called p (ok payload) s =
        answered p (client_do network address compliance (codes "POST") [] p payload s)

    unfoldable pub request_action : NodePath → Option Insertion → St → Result (Option Node) × St
    unfolding called
    request_action p input s = called p (action_payload p input) s
