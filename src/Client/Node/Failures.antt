-- ===== src/Client/Node/Failures.antt =====
-- Where the requests of a client fail.
use restconf.Prelude.{◌<◌, ◌≤◌, ◌≡◌, refl, true, false, none, some, [], ◌++◌, arith}
use restconf.Prelude.{leb}
use restconf.Text.{Bytes, codes}
use restconf.Errors.{new, is_not_found, ok, panicked}
use restconf.Decimal.{print_nat}
use restconf.Compliance.{ComplianceOptions}
use restconf.Client.{
  Address, NodePath, Network, HttpResponse, full_url, mime_type, readable, no_content, checked,
  exchange, client_do,
}
use restconf.Client.Node.{
  Json, get, got, json_node, request, request_with, requested, payload_of, navigated,
  valid_navigation,
}

module _ {St Node : Type 0} (json : Json Node) (network : Network St) (address : Address)
    (compliance : ComplianceOptions) (p : NodePath) (s s' : St) (resp : HttpResponse) where
  -- The network answers a request for the path, of a method and without a body, with `resp`.
  pub record Answers (method params : Bytes) : Type 0 where
    pub accepts : network.refuses_url (full_url address compliance p params) ≡ none
    pub answers :
        network.send
          (record {
            method = method;
            url = full_url address compliance p params;
            content_type = mime_type compliance;
            accept = mime_type compliance;
            body = [];
          })
          s
        ≡ (ok resp, s')

  client_do_lem :
      (method params : Bytes)
      → Answers method params
      → client_do network address compliance method params p [] s ≡ (checked (ok resp), s')
  unfolding client_do exchange
  client_do_lem method params a = rw (a.accepts, a.answers) refl

  -- A navigation to a target that the server answers with 404, or with any other code from 300 on, is
  -- an error with the answer's text: the client does not tell a missing target from a failure.
  valid_navigation_missing :
      Answers (codes "OPTIONS") []
      → 300 ≤ resp.status_code
      → valid_navigation json network address compliance p s ≡ (
        (
          false,
          some (
              new
                (codes "(" ++ (print_nat resp.status_code ++ (codes ") " ++ readable resp.body)))),
        ),
        s',
      )
  unfolding valid_navigation request request_with payload_of checked is_not_found requested
      navigated
  valid_navigation_missing a h =
      let refused : leb 300 resp.status_code ≡ true = ground arith in
      rw (client_do_lem (codes "OPTIONS") [] a, refused) refl

  -- A read whose answer succeeds and is empty panics.
  get_empty :
      (params : Bytes)
      → Answers (codes "GET") params
      → resp.status_code < 300
      → resp.content_length ≡ some 0
      → get json network address compliance p params s ≡ panicked
  unfolding get checked json_node got no_content
  get_empty params a h e =
      let fine : leb 300 resp.status_code ≡ false = ground arith in
      rw (client_do_lem (codes "GET") params a, fine, e) refl
