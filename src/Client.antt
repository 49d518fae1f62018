-- ===== src/Client.antt =====
-- client/client.go and client/node.go: the addresses of a device, and the requests of a client.
pub mod Node
pub mod Events
pub mod Modes
pub mod Location
pub mod Reaches
pub mod Remote
pub mod Stream
use restconf.Prelude.{
  ℕ, Bool, true, false, not, ◌&&◌, Option, none, some, List, [], ◌∷◌, ◌++◌, ◌+◌, leb, ◌==◌,
  if◌then◌else◌, length, take, drop,
}
use restconf.Text.{Bytes, codes, is_empty, index, contains}
use restconf.Errors.{Error, new, Result, ok, err, Run, panicked, ret}
use restconf.Address.{ends_in}
use restconf.Decimal.{print_nat}
use restconf.Compliance.{
  ComplianceOptions, same_options, simplified, plain_json_mime_type, yang_data_json_mime_type1,
}

abbrev pub device_mark : Bytes
device_mark = codes "/restconf="

-- post[:len(post)-1]
without_last : Bytes → Run Bytes
without_last [] = panicked
without_last (x ∷ post) = ret (take (length post) (x ∷ post))

-- SplitAfter gives two segments where the mark occurs once
device_behind : Option ℕ → Bytes → Run Bytes
unfolding without_last
device_behind none addr = ret []
device_behind (some i) addr =
    let post = drop (i + 10) addr in if contains post device_mark then ret [] else without_last post

-- util.go
unfoldable pub find_device_id_in_url : Bytes → Run Bytes
unfolding device_behind
find_device_id_in_url addr = device_behind (index addr device_mark) addr

-- The fields that the source names Data, Stream, Ui, ...; Stream and Host are never set.
pub record Address : Type 0 where
  pub base : Bytes
  pub data_url : Bytes
  pub ui : Bytes
  pub operations : Bytes
  pub schema : Bytes
  pub device_id : Bytes
  pub origin : Bytes

unfoldable pub with_slash : Bytes → Bytes
with_slash url_addr = if ends_in url_addr b'/' then url_addr else url_addr ++ codes "/"

address_of : Bytes → Bytes → Bytes → Address
address_of url_addr host device_id = record {
  base = url_addr;
  data_url = url_addr ++ codes "data/";
  ui = url_addr ++ codes "ui/";
  operations = url_addr ++ codes "operations/";
  schema = url_addr ++ codes "schema/";
  device_id = device_id;
  origin = codes "http://" ++ host;
}

with_device : Bytes → Bytes → Run Bytes → Run (Result Address)
unfolding address_of
with_device url_addr host panicked = panicked
with_device url_addr host (ret id) = ret (ok (address_of url_addr host id))

parsed : Bytes → Result Bytes → Run (Result Address)
unfolding with_device
parsed url_addr (err e) = ret (err e)
parsed url_addr (ok host) = with_device url_addr host (find_device_id_in_url url_addr)

-- `parse_host` is url.Parse, with the host of the result. The empty text has no last byte.
unfoldable pub new_address : (parse_host : Bytes → Result Bytes) → Bytes → Run (Result Address)
unfolding parsed
new_address parse_host url_addr =
    if is_empty url_addr
    then panicked
    else parsed (with_slash url_addr) (parse_host (with_slash url_addr))

-- What a request needs of a node.Path: its module's name, itself as a text without the module, and
-- what its meta definition is.
pub record NodePath : Type 0 where
  pub module_ident : Bytes
  pub original_ident : Bytes
  pub string_no_module : Bytes
  pub is_action : Bool
  pub is_root_level : Bool

pub record HttpRequest : Type 0 where
  pub method : Bytes
  pub url : Bytes
  pub content_type : Bytes
  pub accept : Bytes
  pub body : Bytes

-- `body` is what can be read, with the error that ends the reading; `content_length` is none for -1.
pub record HttpResponse : Type 0 where
  pub status_code : ℕ
  pub content_length : Option ℕ
  pub body : Option (Bytes × Option Error)

-- The network: http.NewRequest's verdict on a URL, and what the server answers.
pub record Network (St : Type 0) : Type 0 where
  pub refuses_url : Bytes → Option Error
  pub send : HttpRequest → St → Result HttpResponse × St

unfoldable pub full_url : Address → ComplianceOptions → NodePath → Bytes → Bytes
full_url address compliance p params =
    let base =
      if p.is_action && (not compliance.allow_rpc_under_data && p.is_root_level)
      then address.operations
      else address.data_url in
    let url = base ++ (p.module_ident ++ b':' ∷ p.string_no_module) in
    if is_empty params then url else url ++ b'?' ∷ params

unfoldable pub mime_type : ComplianceOptions → Bytes
mime_type compliance =
    if same_options compliance simplified then plain_json_mime_type else yang_data_json_mime_type1

no_content : Option ℕ → Bool
no_content none = false
no_content (some n) = n == 0

unfoldable pub readable : Option (Bytes × Option Error) → Bytes
readable none = []
readable (some (content, _)) = content

-- what client.Do answered
unfoldable pub checked : Result HttpResponse → Result (Option (Bytes × Option Error))
unfolding no_content readable
checked (err e) = err e
checked (ok resp) =
    if leb 300 resp.status_code
    then err (new (codes "(" ++ (print_nat resp.status_code ++ (codes ") " ++ readable resp.body))))
    else if no_content resp.content_length
    then ok none
    else ok resp.body

module _ {St : Type 0} (network : Network St) (address : Address)
    (compliance : ComplianceOptions) where
  exchange : Option Error → HttpRequest → St → Result (Option (Bytes × Option Error)) × St
  exchange (some e) req s = (err e, s)
  exchange none req s = let (resp, s') = network.send req s in (checked resp, s')

  unfoldable pub client_do :
      (method params : Bytes)
      → NodePath
      → (payload : Bytes) → St
      → Result (Option (Bytes × Option Error)) × St
  unfolding exchange
  client_do method params p payload s =
      let url = full_url address compliance p params in
      let req : HttpRequest = record {
        method = method;
        url = url;
        content_type = mime_type compliance;
        accept = mime_type compliance;
        body = payload;
      } in
      exchange (network.refuses_url url) req s
