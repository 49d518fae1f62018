-- ===== src/Server/Pages.antt =====
-- server.go: web apps, streams of files, and the static route.
use restconf.Prelude.{
  Bool, true, false, not, ◌&&◌, ◌||◌, Option, none, some, List, [], ◌∷◌, ◌++◌, ◌==◌, if◌then◌else◌,
}
use restconf.Text.{Bytes, codes, beq, is_empty, has_prefix}
use restconf.Errors.{Error, not_found_error, Result, ok, err, Fc, Run, panicked, ret}
use restconf.Url.{shift}
use restconf.Http.{get, Request, Response, set_header, write_header, write}
use restconf.Http.Report.{Encoders, report}
use restconf.Compliance.{ComplianceOptions, simplified}
use restconf.Server.{Opener, WebApp, Opened, missing, failed, directory, file}

-- What the server uses of the file system, and of packages mime, net/http and html: the address that
-- http.Redirect makes of a relative one, and the escaping in its page.
pub record Web : Type 0 where
  pub open_file : (directory name : Bytes) → Opened
  pub type_by_extension : Bytes → Bytes
  pub absolute : Request → Bytes → Bytes
  pub html_escape : Bytes → Bytes

-- filepath.Ext: from the last dot of the last element on
extension_from : Option Bytes → Bytes → Bytes
extension_from none [] = []
extension_from (some e) [] = e
extension_from e (c ∷ path) =
    if c == b'.'
    then extension_from (some (c ∷ path)) path
    else if c == b'/'
    then extension_from none path
    else extension_from e path

unfoldable pub extension : Bytes → Bytes
unfolding extension_from
extension path = extension_from none path

-- io.Copy(w, rdr) for a content at hand: nothing is written of an empty one
unfoldable pub copy : Bytes → Response → Option Error × Response
copy content w = if is_empty content then (none, w) else write content w

module _ (web : Web) (fc : Fc) (encoders : Encoders) where
  -- http.Redirect(w, r, url, code), at code 301
  unfoldable pub redirect : Request → Bytes → Response → Response
  redirect r url w =
      let location = web.absolute r url in
      let had_type = not (is_empty (get w.header (codes "Content-Type"))) in
      let located = set_header (codes "Location") location w in
      let typed =
        if not had_type && (beq r.method (codes "GET") || beq r.method (codes "HEAD"))
        then set_header (codes "Content-Type") (codes "text/html; charset=utf-8") located
        else located in
      let sent = write_header 301 typed in
      if not had_type && beq r.method (codes "GET")
      then (write
          (codes "<a href=\""
            ++ (web.html_escape location ++ codes "\">Moved Permanently</a>.\n\n"))
          sent).1
      else sent

  copied : ComplianceOptions → Request → Bytes → Option Error × Response → Response
  copied compliance r accept (none, w) = w
  copied compliance r accept (some e, w) = report fc encoders compliance e r accept w

  -- a content with the media type of an extension
  send_content : ComplianceOptions → Request → Bytes → Bytes → Bytes → Response → Response
  unfolding copied
  send_content compliance r accept ext content w =
      copied compliance r accept
        (copy content (set_header (codes "Content-Type") (web.type_by_extension ext) w))

  -- the home page, opened
  send_home_page : Request → Bytes → Opened → Response → Response
  unfolding send_content copied
  send_home_page r accept missing w = report fc encoders simplified not_found_error r accept w
  send_home_page r accept (failed e) w = report fc encoders simplified e r accept w
  send_home_page r accept (directory e) w =
      copied simplified r accept
        (some e, set_header (codes "Content-Type") (web.type_by_extension (codes ".html")) w)
  send_home_page r accept (file content) w =
      send_content simplified r accept (codes ".html") content w

  -- the file of the path, opened
  send_file : Request → WebApp → Bytes → Bytes → Opened → Response → Response
  unfolding send_home_page send_content
  send_file r wap path accept (failed e) w = report fc encoders simplified e r accept w
  send_file r wap path accept (file content) w =
      send_content simplified r accept (extension path) content w
  send_file r wap path accept _ w =
      send_home_page r accept (web.open_file wap.home_dir wap.home_page) w

  unfoldable pub serve_web_app : Request → WebApp → Bytes → Bytes → Response → Response
  unfolding send_file send_home_page
  serve_web_app r wap path accept w =
      if is_empty path
      then send_home_page r accept (web.open_file wap.home_dir wap.home_page) w
      else send_file r wap path accept (web.open_file wap.home_dir path) w

  -- `none` where no app has the endpoint
  unfoldable pub handle_web_app :
      List WebApp → Request → Bytes → Bytes → Bytes → Response → Option Response
  handle_web_app [] r endpoint path accept w = none
  handle_web_app (wap ∷ waps) r endpoint path accept w =
      let rest = handle_web_app waps r endpoint path accept w in
      if beq endpoint wap.endpoint
      then some (
          if has_prefix path wap.home_page
          then redirect r wap.endpoint w
          else serve_web_app r wap path accept w)
      else rest

  -- what the opener answered
  send_source :
      ComplianceOptions → Request → Bytes → Bytes → Result (Option Bytes) → Response → Response
  unfolding send_content
  send_source compliance r path accept (err e) w = report fc encoders compliance e r accept w
  send_source compliance r path accept (ok none) w =
      report fc encoders compliance not_found_error r accept w
  send_source compliance r path accept (ok (some content)) w =
      send_content compliance r accept (extension path) content w

  unfoldable pub serve_stream_source :
      ComplianceOptions → Request → Option Opener → Bytes → Bytes → Response → Run Response
  unfolding send_source
  serve_stream_source compliance r none path accept w = panicked
  serve_stream_source compliance r (some s) path accept w =
      ret (send_source compliance r path accept (s path []) w)

-- With whether the route is served.
unfoldable pub serve_static_route : Request → Response → Bool × Response
serve_static_route r w =
    let op = (shift (shift r.url b'/').1 b'/').0 in
    if beq op (codes "host-meta")
    then (
      true,
      (write
          (codes
            "{ \"xrd\" : { \"link\" : { \"@rel\" : \"restconf\", \"@href\" : \"/restconf\" } } }")
          w).1,
    )
    else (false, w)
