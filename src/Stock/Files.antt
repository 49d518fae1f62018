-- ===== src/Stock/Files.antt =====
-- StreamSourceWebHandler of stock/web.go: the files of a source on the web.
use restconf.Prelude.{false, Option, none, some, [], ◌≡◌, ◌≢◌, refl, ◌∙◌, if◌then◌else◌}
use restconf.Text.{Bytes, codes, is_empty}
use restconf.Text.Laws.{is_empty_of_ne, beq_self}
use restconf.Errors.{Error, text, Fc, Result, ok, err, Run, panicked, ret}
use restconf.Http.{Request, Response, get, set, set_header, write_header, write, http_error}
use restconf.Http.Laws.{get-set, IsUnsent}
use restconf.Server.{Opener}
use restconf.Server.Pages.{extension, copy}

module _ (fc : Fc) (type_by_extension : Bytes → Bytes) where
  sent : Option Error × Response → Response
  sent (none, w) = w
  sent (some e, w) = http_error (text fc e) 500 w

  answer : Bytes → Result (Option Bytes) → Response → Run Response
  unfolding sent
  answer path (err e) w = ret (http_error (text fc e) 404 w)
  answer path (ok none) w = panicked
  answer path (ok (some content)) w = ret (
      sent
        (copy content (set_header (codes "Content-Type") (type_by_extension (extension path)) w)))

  unfoldable pub index_if_empty : Bytes → Bytes
  index_if_empty path = if is_empty path then codes "index.html" else path

  -- ServeHTTP. A nil reader without an error is read, which is a panic.
  unfoldable pub serve_http : (source : Opener) → Response → Request → Run Response
  unfolding answer index_if_empty
  serve_http source w r = let path = index_if_empty r.url.path in answer path (source path []) w

  -- A file of the source, under the path of the request or index.html if that is empty, is sent with
  -- status 200 and the media type of its extension, if it is not empty, nothing was sent before, and
  -- the connection does not break.
  serve_http_lem :
      (source : Opener) (w : Response) (r : Request)
      → IsUnsent w
      → (content : Bytes) → source (index_if_empty r.url.path) [] ≡ ok (some content)
      → content ≢ []
      → (w' : Response) × (serve_http source w r ≡ ret w')
        × (w'.status ≡ some 200)
        × (w'.body ≡ content)
        × (get w'.sent_header (codes "Content-Type")
            ≡ type_by_extension (extension (index_if_empty r.url.path)))
  unfolding serve_http copy write write_header set_header
  serve_http_lem source w r u content found ne =
      let path = index_if_empty r.url.path in
      let filled : is_empty content ≡ false = is_empty_of_ne content ne in
      (
        record w {
          header = set w.header (codes "Content-Type") (type_by_extension (extension path));
          sent_header = set w.header (codes "Content-Type") (type_by_extension (extension path));
          status = some 200;
          body = content;
        },
        rw (found, filled, u.unsent, u.unbroken, u.nothing) refl,
        refl,
        refl,
        get-set w.header (codes "Content-Type") (codes "Content-Type")
              (type_by_extension (extension path))
            ∙ rw (beq_self (codes "Content-Type")) refl,
      )
