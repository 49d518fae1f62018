-- ===== src/Handler/Rpc/Output.antt =====
-- The envelope of an rpc's output in JSON.
use restconf.Prelude.{◌≡◌, sym, ap, ◌∙◌, false, Option, none, some, ◌++◌, append_assoc, subst}
use restconf.Prelude.{else_of}
use restconf.Text.{Bytes, codes}
use restconf.Errors.{Error}
use restconf.Http.{Response, write}
use restconf.Http.Laws.{IsUnbroken, write_lem}
use restconf.Compliance.{ComplianceOptions}
use restconf.Wire.{write_rpc_output_start, write_rpc_output_end, json_wire_format}
use restconf.Handler.{Backend, NodeWriter, node_wtr}
use restconf.Handler.Rpc.{
  send_action_output, write_envelope, first_error, wrapped_output, end_output,
}

module _ {St Sel Node Browser : Type 0} (b : Backend St Sel Node Browser) where
  -- Both writes succeeded, and the body grew by the bytes.
  abbrev pub Wrote : Option Error × Response → Response → Bytes → Type 0
  Wrote x v bytes = (x.0 ≡ none) × (IsUnbroken x.1 × (x.1.body ≡ v.body ++ bytes))

  end_output_lem :
      (x : Option Error × Response) (v : Response) (bytes : Bytes)
      → Wrote x v bytes
      → Wrote (end_output b json_wire_format x) v (bytes ++ codes "}")
  unfolding end_output write_envelope write_rpc_output_end first_error
  end_output_lem (some e, w) v bytes (success, h) = absurd (cc success)
  end_output_lem (none, w) v bytes (success, (h, k)) =
      let (a, (c, d)) = write_lem (codes "}") w h in
      (
        ap (λ (f : Option Error). first_error f none) a,
        (c, d ∙ ap (λ (x : Bytes). x ++ codes "}") k ∙ append_assoc v.body bytes (codes "}")),
      )

  wrapped_output_lem :
      (output : Sel) (wtr : NodeWriter) (s : St) (bytes start : Bytes)
      → ((v : Response) → IsUnbroken v → b.insert_into output wtr s v ≡ write bytes v)
      → (x : Option Error × Response) (v : Response) → Wrote x v start
      → Wrote (wrapped_output b json_wire_format output wtr s x) v ((start ++ bytes) ++ codes "}")
  unfolding wrapped_output
  wrapped_output_lem output wtr s bytes start inserts (some e, w) v (success, h) =
      absurd (cc success)
  wrapped_output_lem output wtr s bytes start inserts (none, w) v (success, (h, k)) =
      let (a, (c, d)) = write_lem bytes w h in
      rw (inserts w h) (
        end_output_lem (write bytes w) v (start ++ bytes)
          (a, (c, d ∙ ap (λ (x : Bytes). x ++ bytes) k ∙ append_assoc v.body start bytes)))

  -- Where the selection writes `bytes`, and the connection does not break, the output is written
  -- between the two halves of the envelope.
  pub send_action_output_lem :
      (accept_type : Bytes) (compliance : ComplianceOptions) (output a : Sel) (s : St)
      (bytes : Bytes)
      → compliance.disable_action_wrapper ≡ false
      → ((v : Response)
          → IsUnbroken v
          → b.insert_into output (node_wtr accept_type compliance) s v ≡ write bytes v)
      → (v : Response) → IsUnbroken v
      → Wrote
          (send_action_output b accept_type compliance json_wire_format output a s v)
          v
          ((write_rpc_output_start json_wire_format (b.original_module a) ++ bytes) ++ codes "}")
  unfolding send_action_output write_envelope
  send_action_output_lem accept_type compliance output a s bytes wrapped inserts v h =
      let start : Bytes = write_rpc_output_start json_wire_format (b.original_module a) in
      subst (λ x. Wrote x v ((start ++ bytes) ++ codes "}"))
        (sym (else_of compliance.disable_action_wrapper _ _ wrapped))
        (wrapped_output_lem output (node_wtr accept_type compliance) s bytes start inserts
          (write start v) v (write_lem start v h))
