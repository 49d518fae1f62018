-- ===== src/Handler/Rpc.antt =====
-- browser_handler.go: the input and the output of rpcs and actions.
pub mod Output
use restconf.Prelude.{
  ℕ, Bool, true, false, Option, none, some, List, [], ◌∷◌, ◌++◌, ◌&&◌, not, if◌then◌else◌,
}
use restconf.Text.{Bytes, codes}
use restconf.Errors.{Error, new, Result, ok, err, ◌>>=◌, Fc}
use restconf.Http.{Request, Response, write, write_header}
use restconf.Http.Report.{Encoders, report}
use restconf.Compliance.{ComplianceOptions}
use restconf.Wire.{
  WireFormat, json_wire_format, xml_wire_format, Module, write_rpc_output_start,
  write_rpc_output_end,
}
use restconf.Handler.{
  Backend, Context, NodeWriter, node_wtr, set_content_type, node_rdr, request_node,
  is_multi_part_form,
}

-- An envelope of rpc outputs is written in JSON alone: the XML format writes nothing.
unfoldable pub write_envelope : WireFormat → Bytes → Response → Option Error × Response
write_envelope json_wire_format text w = write text w
write_envelope xml_wire_format text w = (none, w)

-- The error of writing the end of the envelope goes before that of the insertion.
unfoldable pub first_error : Option Error → Option Error → Option Error
first_error none e = e
first_error (some x) e = some x

module _ {St Sel Node Browser : Type 0} (b : Backend St Sel Node Browser) where
  unfoldable pub find_node_outside_schema : Module → Bytes → Node → Result (Option Node)
  find_node_outside_schema m container n = b.find_container m container n

  -- the tests behind findNodeOutsideSchema
  found_input : Sel → Option Node → Result Node
  found_input a none = err (new (codes "missing in input wrapper " ++ b.schema_path a))
  found_input a (some n) = ok n

  unfoldable pub read_input : ComplianceOptions → Bytes → Request → Sel → Result Node
  unfolding found_input
  read_input compliance content_type r a =
      if is_multi_part_form r.header
      then b.form_node r
      else (node_rdr b content_type r.body >>= (λ n.
          if compliance.disable_action_wrapper
          then ok n
          else (find_node_outside_schema (b.original_module a) (codes "input") n
              >>= found_input a)))

  -- from the insertion of the output on, for a wrapped output; `e` is the insertion's error
  end_output : WireFormat → Option Error × Response → Option Error × Response
  unfolding write_envelope first_error
  end_output wire_format (e, w) =
      let (f, w') = write_envelope wire_format (write_rpc_output_end wire_format) w in
      (first_error f e, w')

  -- from the start of the envelope on
  wrapped_output :
      WireFormat → Sel → NodeWriter → St → Option Error × Response → Option Error × Response
  unfolding end_output
  wrapped_output wire_format output wtr s (some e, w) = (some e, w)
  wrapped_output wire_format output wtr s (none, w) =
      end_output wire_format (b.insert_into output wtr s w)

  unfoldable pub send_action_output :
      Bytes → ComplianceOptions → WireFormat → Sel → Sel → St → Response → Option Error × Response
  unfolding wrapped_output write_envelope
  send_action_output accept_type compliance wire_format output a s w =
      if compliance.disable_action_wrapper
      then b.insert_into output (node_wtr accept_type compliance) s w
      else wrapped_output wire_format output (node_wtr accept_type compliance) s
          (write_envelope wire_format (write_rpc_output_start wire_format (b.original_module a)) w)
