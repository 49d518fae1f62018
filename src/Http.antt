-- ===== src/Http.antt =====
-- What the program uses of package net/http: a request, and a response that is being written.
pub mod Report
pub mod Laws
use restconf.Prelude.{ℕ, Bool, true, false, Option, none, some, List, [], ◌∷◌, ◌++◌, if◌then◌else◌}
use restconf.Text.{Bytes, codes, beq}
use restconf.Errors.{Error}
use restconf.Url.{Url}

abbrev pub Headers : Type 0
Headers = List (Bytes × Bytes)

-- h.Get(key)
unfoldable pub get : Headers → Bytes → Bytes
get [] key = []
get ((k, v) ∷ h) key = if beq k key then v else get h key

-- h.Set(key, value)
unfoldable pub set : Headers → Bytes → Bytes → Headers
set [] key value = (key, value) ∷ []
set ((k, v) ∷ h) key value = if beq k key then (key, value) ∷ h else (k, v) ∷ set h key value

-- `query` is r.URL.Query().
pub record Request : Type 0 where
  pub method : Bytes
  pub url : Url
  pub query : List (Bytes × Bytes)
  pub request_uri : Bytes
  pub remote_addr : Bytes
  pub header : Headers
  pub has_content : Bool
  pub body : Bytes

-- `status` is set when the header is sent, with the header fields of that moment. `faults` are the
-- errors of the writes to come, for a connection that breaks; a write beyond them succeeds.
pub record Response : Type 0 where
  pub header : Headers
  pub status : Option ℕ
  pub sent_header : Headers
  pub body : Bytes
  pub faults : List (Option Error)

abbrev pub fresh : Response
fresh = record { header = []; status = none; sent_header = []; body = []; faults = [] }

-- w.Header().Set(key, value)
unfoldable pub set_header : Bytes → Bytes → Response → Response
set_header key value w = record w { header = set w.header key value }

send_header : Option ℕ → ℕ → Response → Response
send_header (some _) code w = w
send_header none code w = record w { status = some code; sent_header = w.header }

-- w.WriteHeader(code): only the first call counts
unfoldable pub write_header : ℕ → Response → Response
unfolding send_header
write_header code w = send_header w.status code w

put : List (Option Error) → Bytes → Response → Option Error × Response
put [] b w = (none, record w { body = w.body ++ b })
put (none ∷ fs) b w = (none, record w { body = w.body ++ b; faults = fs })
put (some e ∷ fs) b w = (some e, record w { faults = fs })

-- w.Write(b): sends the header with status 200, if none was sent
unfoldable pub write : Bytes → Response → Option Error × Response
unfolding put write_header
write b w = put w.faults b (write_header 200 w)

-- http.Error(w, message, code)
unfoldable pub http_error : Bytes → ℕ → Response → Response
unfolding write write_header set_header
http_error message code w =
    let typed = set_header (codes "Content-Type") (codes "text/plain; charset=utf-8") w in
    let safe = set_header (codes "X-Content-Type-Options") (codes "nosniff") typed in
    (write (message ++ b'\n' ∷ []) (write_header code safe)).1
