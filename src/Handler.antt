-- ===== src/Handler.antt =====
-- browser_handler.go: one request to a browser of a module. The selections, nodes and readers of
-- the freeconf/yang packages are the record `Backend`, over a state `St` of the application; a
-- request's context carries the compliance options and the address of the caller.
pub mod Rpc
pub mod Serve
pub mod Stream
pub mod Watching
use restconf.Prelude.{ℕ, Bool, true, false, Option, none, some, List, [], ◌∷◌, not, if◌then◌else◌}
use restconf.Text.{Bytes, codes, has_prefix}
use restconf.Errors.{Error, Result}
use restconf.Address.{ip_addr_split_host_port}
use restconf.Url.{Url}
use restconf.Http.{Headers, get, Request, Response, set_header}
use restconf.Compliance.{ComplianceOptions, is_xml}
use restconf.Wire.{Module}

pub record Context : Type 0 where
  pub compliance : ComplianceOptions
  pub remote_ip : Option Bytes
  pub values : List (Bytes × Bytes)

-- The writer that a selection is inserted into: nodeutil.XMLWtr, or nodeutil.JSONWtr with its
-- QualifyNamespace.
pub data NodeWriter : Type 0 where
  xml_wtr : NodeWriter
  json_wtr : (qualify_namespace : Bool) → NodeWriter

-- What the handler uses of packages node, nodeutil, meta and mime. An edit is given the state and
-- leaves one, whether it fails or not. `insert_into` writes a selection to the response.
pub record Backend (St Sel Node Browser : Type 0) : Type 0 where
  pub find : Browser → Context → Bytes → St → Result (Option Sel)
  pub build_constraints : Option Sel → List (Bytes × Bytes) → Result (Option Sel)
  -- target.Constrain("content=config")
  pub config_only : Sel → Sel
  pub is_action : Sel → Bool
  pub is_notification : Sel → Bool
  pub path_len : Sel → ℕ
  pub original_module : Sel → Module
  pub schema_path : Sel → Bytes
  pub has_input : Sel → Bool
  pub has_output : Sel → Bool
  pub delete : Sel → St → Option Error × St
  pub upsert_from : Sel → Node → St → Option Error × St
  pub replace_from : Sel → Node → St → Option Error × St
  pub insert_from : Sel → Node → St → Option Error × St
  pub action : Sel → Option Node → St → Result (Option Sel) × St
  pub notifications : Sel → St → Option Error × St
  pub insert_into : Sel → NodeWriter → St → Response → Option Error × Response
  -- nodeutil.ReadXMLBlock, nodeutil.ReadJSONIO, and formNode of form.go
  pub read_xml_block : Bytes → Result Node
  pub read_json_io : Bytes → Result Node
  pub form_node : Request → Result Node
  -- the selection of a container in a browser of a module that has it alone, over a node
  pub find_container : Module → Bytes → Node → Result (Option Node)
  pub escaped_path : Url → Bytes
  pub type_by_extension : Bytes → Bytes

pub data Endpoint : Type 0 where
  endpoint_data endpoint_operations endpoint_streams endpoint_schema : Endpoint

-- isMultiPartForm
unfoldable pub is_multi_part_form : Headers → Bool
is_multi_part_form hdrs = has_prefix (get hdrs (codes "Content-Type")) (codes "multipart/form-data")

unfoldable pub node_wtr : Bytes → ComplianceOptions → NodeWriter
node_wtr mime compliance =
    if is_xml mime then xml_wtr else json_wtr (not compliance.qualify_namespace_disabled)

-- ctx of ServeHTTP; an address that is not there adds nothing
unfoldable pub with_remote_ip : Bytes → Context → Context
with_remote_ip [] ctx = ctx
with_remote_ip (x ∷ addr) ctx = record ctx {
  remote_ip = some (ip_addr_split_host_port (x ∷ addr)).0;
}

module _ {St Sel Node Browser : Type 0} (b : Backend St Sel Node Browser) where
  unfoldable pub set_content_type : ComplianceOptions → Bytes → Response → Response
  set_content_type compliance content_type w =
      set_header (codes "Content-Type")
        (if compliance.qualify_namespace_disabled
          then b.type_by_extension (codes ".json")
          else content_type)
        w

  unfoldable pub node_rdr : Bytes → Bytes → Result Node
  node_rdr mime body = if is_xml mime then b.read_xml_block body else b.read_json_io body

  unfoldable pub request_node : Request → Bytes → Result Node
  request_node r content_type =
      if is_multi_part_form r.header then b.form_node r else node_rdr content_type r.body
