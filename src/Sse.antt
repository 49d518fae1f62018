-- ===== src/Sse.antt =====
-- Server-sent events: the frames that browser_handler.go writes for notifications, and the decoder
-- of client/sse_decoder.go.
pub mod Frames
pub mod Newline
use restconf.Prelude.{
  Bool, true, false, List, [], ◌∷◌, ◌++◌, ◌-◌, ◌==◌, leb, if◌then◌else◌, length, take, drop,
}
use restconf.Text.{Bytes, codes, is_empty, has_prefix}
use restconf.Address.{ends_in}
use restconf.Wire.{WireFormat, Module, write_notification_start, write_notification_end}

-- What the notification callback of ServeHTTP collects in `buf`; `event` is what the node writer
-- makes of the notification, `wrapped` is !compliance.DisableNotificationWrapper.
unfoldable pub notification_payload : Bool → WireFormat → Module → (etime event : Bytes) → Bytes
notification_payload wrapped fmt m etime event =
    if wrapped
    then write_notification_start fmt m etime ++ (event ++ write_notification_end fmt)
    else event

unfoldable pub frame : Bytes → Bytes
frame payload = codes "data: " ++ (payload ++ codes "\n\n")

abbrev pub sse_data_prefix : Bytes
sse_data_prefix = codes "data: "

extend : Bytes → List Bytes → List Bytes
extend x [] = x ∷ []
extend x (line ∷ lines) = (x ++ line) ∷ lines

-- The results of the calls of r.ReadBytes('\n') up to the end of the stream: each line with its line
-- feed, and at last what no line feed ends, which comes with the error.
unfoldable pub read_lines : Bytes → List Bytes
unfolding extend
read_lines [] = [] ∷ []
read_lines (x ∷ s) =
    let rest = read_lines s in if x == b'\n' then (x ∷ []) ∷ rest else extend (x ∷ []) rest

-- `send`: the event, if there is one, and the buffer reset
unfoldable pub send : Bytes → List Bytes
send buff = if is_empty buff then [] else buff ∷ []

-- `line[len(sseDataPrefix):end]`
chunk : Bytes → Bytes
unfolding ends_in
chunk line =
    let end = if ends_in line b'\n' then length line - 1 else length line in drop 6 (take end line)

-- One round of the loop: the events sent, and the buffer.
unfoldable pub step : Bytes → Bytes → List Bytes × Bytes
unfolding send chunk
step buff line =
    if leb (length line) 1
    then (send buff, [])
    else if has_prefix line sse_data_prefix
    then ([], buff ++ chunk line)
    else ([], buff)

unfoldable pub loop : Bytes → List Bytes → List Bytes
unfolding step
loop buff [] = []
loop buff (line ∷ []) = let (events, rest) = step buff line in events ++ send rest
loop buff (line ∷ next ∷ lines) =
    let (events, rest) = step buff line in events ++ loop rest (next ∷ lines)

unfoldable pub decode_sse : Bytes → List Bytes
unfolding read_lines loop
decode_sse stream = loop [] (read_lines stream)
