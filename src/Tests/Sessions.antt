-- ===== src/Tests/Sessions.antt =====
-- Reads, edits and streams of a client.
use restconf.Prelude.{
  ℕ, ◌+◌, true, false, none, some, [], ◌∷◌, ◌≡◌, refl, arith, length, if◌then◌else◌,
}
use restconf.Text.{Bytes, codes, is_empty}
use restconf.Errors.{Error, new, ok, err}
use restconf.Http.{fresh}
use restconf.Compliance.{ComplianceOptions, strict}
use restconf.Wire.{Module, json_wire_format}
use restconf.Sse.{decode_sse, notification_payload}
use restconf.Handler.Stream.{Notification, send_notifications}
use restconf.Client.{Address, NodePath, Network, HttpResponse, HttpRequest}
use restconf.Client.Node.{Json}
use restconf.Client.Events.{StreamEvent, node, error_node}
use restconf.Client.Modes.{NodeRequest, NodeOps, ClientNode}
use restconf.Client.Modes.Sessions.{Op, child_op, field_op}
use restconf.Client.Stream.{StreamNetwork, events, client_stream}
use restconf.Client.Stream.Received.{client_stream_never_ends}
use restconf.Tests.Requests.{errors, speed}
use restconf.Tests.Routes.{location, speed_path}

abbrev broken : Error
broken = new (codes "broken")

-- A node is a number, and a text that is not empty is an object with every member.
abbrev readable : Json ℕ
readable = record {
  Values = ℕ;
  read_json_io = λ body. ok (length body.0);
  decode = λ body. if is_empty body.0 then err broken else ok 0;
  object = λ vals name. some (vals + 1);
  text = λ vals name. some (codes "2024");
  read_json_values = λ vals. ok vals;
}

-- A network that answers every request alike, and counts them.
abbrev network : Network ℕ
network = record {
  refuses_url = λ url. none;
  send = λ req s. (
    ok (record { status_code = 200; content_length = some 2; body = some (codes "{}", none) }),
    s + 1,
  );
}

-- Nodes whose children are the numbers behind them.
abbrev ops : NodeOps ℕ ℕ
ops = record {
  child = λ n r s. (ok (some (n + 1)), s);
  next = λ n r s. (ok none, s);
  field = λ n r s. (none, s);
  extended_next = λ n r s. (ok none, s);
  extended_field = λ n r s. (none, s);
  reflect_map = λ s. (40, s);
  split = λ path n wtr. ok (codes "{}");
}

abbrev client_node : ClientNode ℕ
client_node = record {
  params = [];
  read = some 9;
  edit = none;
  method = [];
  changes = none;
  device = codes "dev";
}

abbrev a_child : Op
a_child = child_op (record {
  is_navigation = false;
  target = speed_path;
  delete = false;
  new = true;
  path = speed_path;
  child_path = speed_path;
})

abbrev a_field : Op
a_field = field_op (record { is_navigation = false; path = speed_path; ident = codes "speed" })

abbrev edit_root : NodeRequest
edit_root = record { edit_root = true; new = true; delete = false; path = speed_path }

abbrev edited : ClientNode ℕ
edited = record client_node {
  method = codes "POST";
  changes = some 40;
  edit = some (record { base = 40; existing = some 2 });
}

abbrev car : Module
car = record { ident = codes "car"; namespace = codes "urn:car" }

abbrev payload : Bytes
payload = notification_payload true json_wire_format car (codes "2024") (codes "{}")

-- A network whose streams have one notification.
abbrev notifies : StreamNetwork
notifies = record {
  refuses_url = λ url. none;
  send = λ req. ok (
    200,
    (send_notifications errors strict (codes "text/event-stream") car (speed ∷ []) fresh).1.body,
  );
}

abbrev silent : StreamNetwork
silent = record { refuses_url = λ url. none; send = λ req. ok (200, []) }

client_stream_never_ends_example :
    (received : ℕ → StreamEvent ℕ) × (client_stream readable
        (λ text. some 7)
        9
        strict
        silent
        location
        speed_path
      ≡ ok (events received))
    × (received 3 ≡ record { timestamp = 9; node = error_node broken })
unfolding is_empty decode_sse
client_stream_never_ends_example =
    client_stream_never_ends readable (λ text. some 7) 9 strict silent location speed_path 200 []
      broken refl refl refl 3 (omega arith)
