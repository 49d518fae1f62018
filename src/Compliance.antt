-- ===== src/Compliance.antt =====
-- compliance.go, the media types of browser_handler.go, and determineCompliance of server.go.
pub mod Laws
use restconf.Prelude.{Bool, true, false, not, ◌&&◌, ◌||◌, List, [], ◌∷◌, ◌++◌, if◌then◌else◌}
use restconf.Text.{Bytes, codes, beq, has_suffix}

-- MimeType
abbrev pub yang_data_json_mime_type1 : Bytes
yang_data_json_mime_type1 = codes "application/yang-data+json"

abbrev pub yang_data_json_mime_type2 : Bytes
yang_data_json_mime_type2 = codes "application/yang.data+json"

abbrev pub yang_data_xml_mime_type1 : Bytes
yang_data_xml_mime_type1 = codes "application/yang-data+xml"

abbrev pub yang_data_xml_mime_type2 : Bytes
yang_data_xml_mime_type2 = codes "application/yang.data+xml"

abbrev pub plain_json_mime_type : Bytes
plain_json_mime_type = codes "application/json"

abbrev pub text_stream_mime_type : Bytes
text_stream_mime_type = codes "text/event-stream"

abbrev pub simplified_compliance_param : Bytes
simplified_compliance_param = codes "simplified"

unfoldable pub is_xml : Bytes → Bool
is_xml m = has_suffix m (codes "xml")

unfoldable pub is_json : Bytes → Bool
is_json m = has_suffix m (codes "json")

unfoldable pub is_rfc : Bytes → Bool
is_rfc m =
    beq m yang_data_json_mime_type1
    || beq m yang_data_json_mime_type2
    || beq m yang_data_xml_mime_type1
    || beq m yang_data_xml_mime_type2

pub record ComplianceOptions : Type 0 where
  pub allow_rpc_under_data : Bool
  pub disable_notification_wrapper : Bool
  pub disable_action_wrapper : Bool
  pub simple_error_response : Bool
  pub qualify_namespace_disabled : Bool

abbrev pub strict : ComplianceOptions
strict = record {
  allow_rpc_under_data = false;
  disable_notification_wrapper = false;
  disable_action_wrapper = false;
  simple_error_response = false;
  qualify_namespace_disabled = false;
}

abbrev pub simplified : ComplianceOptions
simplified = record {
  allow_rpc_under_data = true;
  disable_notification_wrapper = true;
  disable_action_wrapper = true;
  simple_error_response = true;
  qualify_namespace_disabled = true;
}

same_flag : Bool → Bool → Bool
same_flag true b = b
same_flag false b = not b

-- `==` of the struct
unfoldable pub same_options : ComplianceOptions → ComplianceOptions → Bool
unfolding same_flag
same_options a b =
    same_flag a.allow_rpc_under_data b.allow_rpc_under_data
    && (same_flag a.disable_notification_wrapper b.disable_notification_wrapper
        && (same_flag a.disable_action_wrapper b.disable_action_wrapper
            && (same_flag a.simple_error_response b.simple_error_response
                && same_flag a.qualify_namespace_disabled b.qualify_namespace_disabled)))

-- %#v of a bool
flag : Bool → Bytes
flag true = codes "true"
flag false = codes "false"

unfoldable pub print : ComplianceOptions → Bytes
unfolding flag
print compliance =
    if same_options compliance simplified
    then codes "simplified"
    else if same_options compliance strict
    then codes "strict"
    else codes "mixed restconf.ComplianceOptions{AllowRpcUnderData:"
      ++ (flag compliance.allow_rpc_under_data
          ++ (codes ", DisableNotificationWrapper:"
              ++ (flag compliance.disable_notification_wrapper
                  ++ (codes ", DisableActionWrapper:"
                      ++ (flag compliance.disable_action_wrapper
                          ++ (codes ", SimpleErrorResponse:"
                              ++ (flag compliance.simple_error_response
                                  ++ (codes ", QualifyNamespaceDisabled:"
                                      ++ (flag compliance.qualify_namespace_disabled
                                          ++ codes "}")))))))))

-- Values.Has(key)
unfoldable pub has_param : List (Bytes × Bytes) → Bytes → Bool
has_param [] key = false
has_param ((k, v) ∷ q) key = beq k key || has_param q key

-- `only_strict` is srv.OnlyStrictCompliance
unfoldable pub determine_compliance :
    Bool → List (Bytes × Bytes) → (content_type accept_type : Bytes) → ComplianceOptions
unfolding is_rfc
determine_compliance only_strict query content_type accept_type =
    if only_strict
    then strict
    else if has_param query simplified_compliance_param
    then simplified
    else if is_rfc content_type || is_rfc accept_type
    then strict
    else if beq accept_type text_stream_mime_type
    then strict
    else simplified
