-- ===== src/Sse/Newline.antt =====
-- A payload that holds a line feed does not pass the decoder, and every wrapped notification in XML
-- holds one.
use restconf.Prelude.{
  ℕ, ◌≡◌, ap, ◌∙◌, ◌≢◌, Bool, true, false, List, [], ◌∷◌, ◌++◌, arith, length-append, append_assoc,
}
use restconf.Text.{Bytes, codes, has_prefix}
use restconf.Text.Laws.{Lacks, Lacks-append}
use restconf.Wire.{
  json_wire_format, Module, xml_wire_format, xml_notification_line, write_notification_start,
  write_notification_end,
}
use restconf.Sse.{frame, notification_payload, read_lines, step, loop, decode_sse, sse_data_prefix}
use restconf.Sse.Frames.{
  read_lines-line, loop-cons, step_data, step_blank, send_lem, IsPayload, decode_sse-nil,
  decode_sse-frame,
}

-- A line that is neither short nor a data field is ignored.
step_ignored :
    (buff : Bytes) (c : ℕ) (b : Bytes) → c ≢ b'd' → step buff ((c ∷ b) ++ b'\n' ∷ []) ≡ ([], buff)
unfolding step has_prefix
step_ignored buff c b h = ground (arith, length-append {0} b (b'\n' ∷ []))

decode_sse-cut :
    (a : Bytes) (c : ℕ) (b : Bytes)
    → Lacks b'\n' a
    → Lacks b'\n' (c ∷ b)
    → a ≢ []
    → c ≢ b'd'
    → decode_sse (frame (a ++ b'\n' ∷ c ∷ b)) ≡ a ∷ []
unfolding decode_sse frame
decode_sse-cut a c b h k ne other =
    let data_line : Bytes = sse_data_prefix ++ a in
    let plain : Lacks b'\n' data_line = Lacks-append b'\n' sse_data_prefix a (omega arith) h in
    let shape : frame (a ++ b'\n' ∷ c ∷ b) ≡ data_line ++ b'\n' ∷ ((c ∷ b) ++ b'\n' ∷ b'\n' ∷ []) =
      simp append_assoc in
    ap decode_sse shape
    ∙ ap (loop []) (read_lines-line data_line ((c ∷ b) ++ b'\n' ∷ b'\n' ∷ []) plain)
    ∙ loop-cons [] (data_line ++ b'\n' ∷ []) ((c ∷ b) ++ b'\n' ∷ b'\n' ∷ [])
    ∙ ap (λ (r : List Bytes × Bytes). r.0 ++ loop r.1 (read_lines ((c ∷ b) ++ b'\n' ∷ b'\n' ∷ [])))
        (step_data [] a)
    ∙ ap (loop a) (read_lines-line (c ∷ b) (b'\n' ∷ []) k)
    ∙ loop-cons a ((c ∷ b) ++ b'\n' ∷ []) (b'\n' ∷ [])
    ∙ ap (λ (r : List Bytes × Bytes). r.0 ++ loop r.1 (read_lines (b'\n' ∷ [])))
        (step_ignored a c b other)
    ∙ ap (loop a) (read_lines-line [] [] tt)
    ∙ loop-cons a (b'\n' ∷ []) []
    ∙ ap (λ (r : List Bytes × Bytes). r.0 ++ loop r.1 (read_lines [])) (step_blank a)
    ∙ ap (λ (e : List Bytes). e ++ loop [] (read_lines [])) (send_lem a ne)
    ∙ ap (λ (e : List Bytes). a ∷ e) decode_sse-nil

-- The rest of the envelope, behind the line feed.
abbrev xml_opening : Bytes
xml_opening = b'\t' ∷ codes "ication:1.0\"><eventTime>"

abbrev xml_middle : Bytes
xml_middle = codes "</eventTime><event xmlns=\""

abbrev xml_closing : Bytes
xml_closing = codes "</event></notification>"

abbrev json_opening : Bytes
json_opening = codes "{\"ietf-restconf:notification\":{\"eventTime\":\""

abbrev json_middle : Bytes
json_middle = codes "\",\"event\":"

module _ (m : Module) (etime event : Bytes) where
  abbrev xml_rest : Bytes
  xml_rest =
      xml_opening
      ++ (etime ++ (xml_middle ++ (m.namespace ++ (codes "\">" ++ (event ++ xml_closing)))))

  xml_rest-Lacks :
      Lacks b'\n' m.namespace → Lacks b'\n' etime → Lacks b'\n' event → Lacks b'\n' xml_rest
  xml_rest-Lacks h k l = Lacks-append b'\n' xml_opening _ (omega arith) (
      Lacks-append b'\n' etime _ k (
        Lacks-append b'\n' xml_middle _ (omega arith) (
          Lacks-append b'\n' m.namespace _ h (
            Lacks-append b'\n' (codes "\">") _ (omega arith)
              (Lacks-append b'\n' event xml_closing l (omega arith))))))

  -- Of a wrapped XML notification whose namespace, time and event hold no line feed the client
  -- sees the first line of the envelope alone, whatever the event is.
  pub xml_notification_lost :
      Lacks b'\n' m.namespace
      → Lacks b'\n' etime
      → Lacks b'\n' event
      → decode_sse (frame (notification_payload true xml_wire_format m etime event))
        ≡ xml_notification_line ∷ []
  unfolding notification_payload write_notification_start write_notification_end
  xml_notification_lost h k l =
      let shape : notification_payload true xml_wire_format m etime event
          ≡ xml_notification_line ++ b'\n' ∷ xml_rest =
        simp append_assoc in
      ap (λ (p : Bytes). decode_sse (frame p)) shape
      ∙ decode_sse-cut xml_notification_line b'\t' _ (omega arith) (xml_rest-Lacks h k l) (cc)
          (omega arith)

  -- What a JSON notification is framed from has no line feed and is not empty.
  pub json_notification-IsPayload :
      (wrapped : Bool)
      → Lacks b'\n' etime
      → Lacks b'\n' event
      → event ≢ []
      → IsPayload (notification_payload wrapped json_wire_format m etime event)
  unfolding notification_payload write_notification_start write_notification_end
  json_notification-IsPayload true k l ne = (
    Lacks-append b'\n' (json_opening ++ (etime ++ json_middle)) (event ++ codes "}}")
        (Lacks-append b'\n' json_opening (etime ++ json_middle) (omega arith)
          (Lacks-append b'\n' etime json_middle k (omega arith)))
        (Lacks-append b'\n' event (codes "}}") l (omega arith)),
    cc,
  )
  json_notification-IsPayload false k l ne = (l, ne)

  -- A JSON notification, wrapped or not, reaches the client whole.
  json_notification_received :
      (wrapped : Bool) (rest : Bytes)
      → Lacks b'\n' etime
      → Lacks b'\n' event
      → event ≢ []
      → decode_sse (frame (notification_payload wrapped json_wire_format m etime event) ++ rest)
        ≡ notification_payload wrapped json_wire_format m etime event ∷ decode_sse rest
  json_notification_received wrapped rest k l ne =
      let p = json_notification-IsPayload wrapped k l ne in decode_sse-frame _ rest p.0 p.1
