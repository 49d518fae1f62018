-- ===== src/Tests/Web.antt =====
-- Error reports and compliance at concrete requests.
use restconf.Prelude.{false, [], ◌∷◌, ◌++◌}
use restconf.Text.{codes}
use restconf.Errors.{Fc}
use restconf.Http.{Request}
use restconf.Http.Report.{Encoders, message}

abbrev codes_of_errors : Fc
codes_of_errors = record {
  not_found_text = codes "not found";
  unauthorized_text = codes "not authorized";
  foreign_text = λ n. [];
  http_status_code = λ e. 404;
}

abbrev encoders : Encoders
encoders = record {
  json = λ e. b'{' ∷ e.message ++ codes "}";
  xml = λ e. b'<' ∷ e.message ++ codes ">";
}

abbrev request : Request
request = record {
  method = codes "GET";
  url = record { path = codes "/restconf/data/car:"; raw_path = []; raw_query = [] };
  query = [];
  request_uri = codes "/restconf/data/car:";
  remote_addr = codes "127.0.0.1:80";
  header = [];
  has_content = false;
  body = [];
}
