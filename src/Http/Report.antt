-- ===== src/Http/Report.antt =====
-- handleErr of util.go: the error report of RFC 8040, section 7.
use restconf.Prelude.{ℕ, Bool, true, false, Option, none, some, [], ◌∷◌, ◌++◌, ◌==◌, if◌then◌else◌}
use restconf.Text.{Bytes, codes}
use restconf.Errors.{Error, Fc, text}
use restconf.Address.{decode_error_path}
use restconf.Compliance.{ComplianceOptions, is_xml}
use restconf.Http.{Request, Response, set_header, write_header, write}

pub record ErrResponse : Type 0 where
  pub kind : Bytes
  pub tag : Bytes
  pub path : Bytes
  pub message : Bytes

-- The encoders of packages encoding/json and patch/xml at the report's envelope.
pub record Encoders : Type 0 where
  pub json : ErrResponse → Bytes
  pub xml : ErrResponse → Bytes

unfoldable pub decode_error_tag : ℕ → Bytes
decode_error_tag code =
    if code == 409
    then codes "in-use"
    else if code == 400
    then codes "invalid-value"
    else if code == 401
    then codes "access-denied"
    else codes "operation-failed"

module _ (fc : Fc) (encoders : Encoders) where
  unfoldable pub err_response : Error → Request → ErrResponse
  unfolding decode_error_tag
  err_response err r = record {
    kind = codes "protocol";
    tag = decode_error_tag (fc.http_status_code err);
    path = decode_error_path r.request_uri;
    message = text fc err;
  }

  unfoldable pub message : ComplianceOptions → Error → Request → Bytes → Bytes
  message compliance err r mime =
      if compliance.simple_error_response
      then text fc err
      else if is_xml mime
      then encoders.xml (err_response err r)
      else encoders.json (err_response err r)

  -- where `err` is not nil
  unfoldable pub report : ComplianceOptions → Error → Request → Bytes → Response → Response
  unfolding message
  report compliance err r mime w =
      let typed = set_header (codes "Content-Type") mime w in
      let safe = set_header (codes "X-Content-Type-Options") (codes "nosniff") typed in
      let sent = write_header (fc.http_status_code err) safe in
      (write (message compliance err r mime ++ b'\n' ∷ []) sent).1

  unfoldable pub handle_err :
      ComplianceOptions → Option Error → Request → Bytes → Response → Bool × Response
  unfolding report
  handle_err compliance none r mime w = (false, w)
  handle_err compliance (some err) r mime w = (true, report compliance err r mime w)
