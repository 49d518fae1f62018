-- ===== src/Wire.antt =====
-- wire_format.go: the envelopes of notifications and rpc outputs, in JSON and in XML. What a method
-- writes is its result; the errors of the writer are those of `Http.write`.
use restconf.Prelude.{[], ◌∷◌, ◌++◌, if◌then◌else◌}
use restconf.Text.{Bytes, codes}
use restconf.Compliance.{is_xml}

-- What the formats ask of a meta.Module.
pub record Module : Type 0 where
  pub ident : Bytes
  pub namespace : Bytes

pub data WireFormat : Type 0 where
  json_wire_format xml_wire_format : WireFormat

unfoldable pub get_wire_formatter : Bytes → WireFormat
get_wire_formatter accept = if is_xml accept then xml_wire_format else json_wire_format

-- The source's text goes on with a line feed and a tab, which stand in the source's raw string.
abbrev pub xml_notification_line : Bytes
xml_notification_line = codes "<notification xmlns=\"urn:ietf:params:xml:ns:netconf:notif\\"

unfoldable pub write_notification_start : WireFormat → Module → Bytes → Bytes
write_notification_start json_wire_format m etime =
    codes "{\"ietf-restconf:notification\":{\"eventTime\":\"" ++ (etime ++ codes "\",\"event\":")
write_notification_start xml_wire_format m etime =
    xml_notification_line
    ++ (b'\n' ∷ b'\t' ∷ codes "ication:1.0\"><eventTime>"
        ++ (etime ++ (codes "</eventTime><event xmlns=\"" ++ (m.namespace ++ codes "\">"))))

unfoldable pub write_notification_end : WireFormat → Bytes
write_notification_end json_wire_format = codes "}}"
write_notification_end xml_wire_format = codes "</event></notification>"

unfoldable pub write_rpc_output_start : WireFormat → Module → Bytes
write_rpc_output_start json_wire_format m = codes "{\"" ++ (m.ident ++ codes ":output\":")
write_rpc_output_start xml_wire_format m = []

unfoldable pub write_rpc_output_end : WireFormat → Bytes
write_rpc_output_end json_wire_format = codes "}"
write_rpc_output_end xml_wire_format = []
