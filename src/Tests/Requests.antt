-- ===== src/Tests/Requests.antt =====
-- Requests to a small application: its state counts the edits, selection 1 is a container,
-- selection 2 an rpc, and every other path is not found.
use restconf.Prelude.{
  ℕ, ◌+◌, ◌≡◌, refl, ◌≢◌, true, false, Option, none, some, [], ◌∷◌, ◌++◌, arith, ◌==◌,
  if◌then◌else◌,
}
use restconf.Text.{Bytes, codes, beq}
use restconf.Text.Laws.{Lacks}
use restconf.Errors.{Error, new, Fc, Result, ok, err}
use restconf.Http.{Request, fresh, get, write}
use restconf.Http.Report.{Encoders}
use restconf.Compliance.{strict, simplified, yang_data_json_mime_type1}
use restconf.Sse.{decode_sse}
use restconf.Handler.{Backend, Context, endpoint_data, endpoint_operations, json_wtr, NodeWriter}
use restconf.Handler.Serve.Guards.{answer, serve_http_rpc_refused, serve_http_deletes_on_operations}
use restconf.Handler.Serve.Calls.{Calls, serve_http_call_lem}
use restconf.Handler.Stream.{Notification, send_notifications}
use restconf.Handler.Stream.Received.{payloads, send_notifications_received}

abbrev pub errors : Fc
errors = record {
  not_found_text = codes "not found";
  unauthorized_text = codes "not authorized";
  foreign_text = λ n. [];
  http_status_code = λ e. 500;
}

abbrev pub printers : Encoders
printers = record { json = λ e. e.message; xml = λ e. e.message }

abbrev pub garbled : Error
garbled = new (codes "garbled")

abbrev pub select : Bytes → Result (Option ℕ)
select path =
    if beq path (codes "car")
    then ok (some 1)
    else if beq path (codes "start")
    then ok (some 2)
    else ok none

abbrev pub only_json : Bytes → Result Bytes
only_json body = if beq body (codes "{}") then ok body else err garbled

abbrev pub app : Backend ℕ ℕ Bytes ℕ
app = record {
  find = λ browser ctx path s. select path;
  build_constraints = λ target query. ok target;
  config_only = λ target. target;
  is_action = λ target. target == 2;
  is_notification = λ target. false;
  path_len = λ target. 2;
  original_module = λ target. record { ident = codes "car"; namespace = codes "urn:car" };
  schema_path = λ target. codes "car/start";
  has_input = λ target. false;
  has_output = λ target. true;
  delete = λ target s. (none, s + 1);
  upsert_from = λ target n s. (none, s + 1);
  replace_from = λ target n s. (none, s + 1);
  insert_from = λ target n s. (none, s + 1);
  action = λ target input s.
      if s == 0
      then (err garbled, s)
      else if s == 1
      then (ok none, s + 1)
      else (ok (some 3), s + 1);
  notifications = λ target s. (none, s);
  insert_into = λ target wtr s w. write (codes "{}") w;
  read_xml_block = λ body. err garbled;
  read_json_io = only_json;
  form_node = λ r. err garbled;
  find_container = λ m name n. ok (some n);
  escaped_path = λ u. u.path;
  type_by_extension = λ ext. codes "application/json";
}

abbrev pub asks : Bytes → Bytes → Request
asks method path = record {
  method = method;
  url = record { path = path; raw_path = []; raw_query = [] };
  query = [];
  request_uri = path;
  remote_addr = [];
  header = (codes "Accept", yang_data_json_mime_type1) ∷ [];
  has_content = false;
  body = codes "<a/>";
}

abbrev ctx : Context
ctx = record { compliance = strict; remote_ip = none; values = [] }

serve_http_rpc_refused_example :
    ((answer app errors printers strict ctx 0
        (asks (codes "POST") (codes "start"))
        endpoint_data
        fresh
        5).0.status
      ≡ some 400)
    × ((answer app errors printers strict ctx 0
          (asks (codes "POST") (codes "start"))
          endpoint_data
          fresh
          5).1
        ≡ 5)
unfolding beq
serve_http_rpc_refused_example =
    serve_http_rpc_refused app errors printers strict ctx 0 (asks (codes "POST") (codes "start"))
      endpoint_data fresh 5 2
      (record { unconstrained = some 2; at_path = refl; constraints = refl }) refl refl refl refl
      (omega arith) refl

serve_http_deletes_on_operations_example :
    ((answer app errors printers strict ctx 0
        (asks (codes "DELETE") (codes "car"))
        endpoint_operations
        fresh
        5).0.status
      ≡ some 400)
    × ((answer app errors printers strict ctx 0
          (asks (codes "DELETE") (codes "car"))
          endpoint_operations
          fresh
          5).1
        ≡ 6)
unfolding beq
serve_http_deletes_on_operations_example =
    serve_http_deletes_on_operations app errors printers strict ctx 0
      (asks (codes "DELETE") (codes "car")) endpoint_operations fresh 5 1
      (record { unconstrained = some 1; at_path = refl; constraints = refl }) refl refl refl

starts :
    (s : ℕ)
    → Calls app errors printers strict ctx 0 (asks (codes "POST") (codes "start")) fresh s 2 none
unfolding beq
starts s = record {
  finds = record { unconstrained = some 2; at_path = refl; constraints = refl };
  post = refl;
  action = refl;
  input_read = refl;
}

serve_http_call_lem_example :
    ((answer app errors printers strict ctx 0
        (asks (codes "POST") (codes "start"))
        endpoint_operations
        fresh
        4).0.body
      ≡ codes "{\"" ++ (codes "car" ++ (codes ":output\":" ++ (codes "{}" ++ codes "}"))))
    × ((answer app errors printers strict ctx 0
          (asks (codes "POST") (codes "start"))
          endpoint_operations
          fresh
          4).1
        ≡ 5)
unfolding beq get restconf.Compliance.is_xml restconf.Text.has_suffix
    restconf.Handler.Serve.accepted
serve_http_call_lem_example =
    serve_http_call_lem app errors printers strict ctx 0 (asks (codes "POST") (codes "start")) fresh
      4 2 none 3 (codes "{}") 5 (starts 4) refl refl refl refl (λ v h. refl)
      (record { unsent = refl; nothing = refl; unbroken = refl })

abbrev pub speed : Notification
speed = record { etime = codes "2024"; event = λ wtr. ok (codes "{}") }

abbrev smoke : Notification
smoke = record { etime = codes "2025"; event = λ wtr. err garbled }

pub brackets : (bytes : Bytes) → ok (codes "{}") ≡ ok bytes → Lacks b'\n' bytes × (bytes ≢ [])
brackets bytes e = let same : bytes ≡ codes "{}" = cc e in rw same (omega arith, λ z. absurd (cc z))

send_notifications_received_example :
    decode_sse
      (send_notifications errors strict
        (codes "text/event-stream")
        (record { ident = codes "car"; namespace = codes "urn:car" })
        (speed ∷ smoke ∷ [])
        fresh).1.body
    ≡ payloads errors strict
        (codes "text/event-stream")
        (record { ident = codes "car"; namespace = codes "urn:car" })
        (speed ∷ smoke ∷ [])
unfolding restconf.Compliance.is_xml restconf.Text.has_suffix beq restconf.Handler.node_wtr
send_notifications_received_example =
    send_notifications_received errors strict (codes "text/event-stream")
      (record { ident = codes "car"; namespace = codes "urn:car" }) (speed ∷ smoke ∷ []) fresh refl
      (
        record { etime = omega arith; event = λ bytes e. brackets bytes e },
        (record { etime = omega arith; event = λ bytes e. absurd (cc e) }, tt),
      )
      refl refl
