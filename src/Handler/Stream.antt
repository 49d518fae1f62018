-- ===== src/Handler/Stream.antt =====
-- The callback of browser_handler.go's ServeHTTP that sends one notification, and the stream that
-- its calls make.
pub mod Received
use restconf.Prelude.{ℕ, Bool, true, false, Option, none, some, List, [], ◌∷◌, ◌++◌, not}
use restconf.Text.{Bytes, codes}
use restconf.Errors.{Error, new, text, Result, ok, err, Fc, ◌>>=◌}
use restconf.Http.{Response, write}
use restconf.Compliance.{ComplianceOptions}
use restconf.Wire.{Module, get_wire_formatter}
use restconf.Sse.{notification_payload, frame}
use restconf.Handler.{NodeWriter, node_wtr}

-- A notification: its time as it is printed, and what inserting its event into a writer on a buffer
-- gives; a panic of the insertion, which the callback recovers, is an error too.
pub record Notification : Type 0 where
  pub etime : Bytes
  pub event : NodeWriter → Result Bytes

module _ (fc : Fc) (compliance : ComplianceOptions) (accept_type : Bytes) (orig_mod : Module) where
  -- the payload of the frame, or the error of the insertion
  unfoldable pub payload : Notification → Result Bytes
  payload n = n.event (node_wtr accept_type compliance) >>= (λ event. ok (
      notification_payload (not compliance.disable_notification_wrapper)
        (get_wire_formatter accept_type) orig_mod n.etime event))

  written : Option Error × Response → Option Error × Response
  written (none, w) = (none, w)
  written (some e, w) = (some (new (codes "error writing notif. " ++ text fc e)), w)

  send_payload : Result Bytes → Response → Option Error × Response
  unfolding written
  send_payload (err e) w = (some e, w)
  send_payload (ok p) w = written (write (frame p) w)

  -- What goes to the channel errOnSend, and the response.
  unfoldable pub send_notification : Notification → Response → Option Error × Response
  unfolding send_payload
  send_notification n w = send_payload (payload n) w

  -- The calls for a sequence of notifications, and all that they put on the channel.
  unfoldable pub send_notifications : List Notification → Response → List Error × Response
  send_notifications [] w = ([], w)
  send_notifications (n ∷ ns) w =
      let (e, w') = send_notification n w in
      let (es, w'') = send_notifications ns w' in (elim e [ none ↦ es | some x ↦ x ∷ es ], w'')
