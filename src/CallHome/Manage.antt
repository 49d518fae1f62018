-- ===== src/CallHome/Manage.antt =====
-- callhome/call_home_node.go, and Install of callhome/call_home.go: call home as a module of a device.
use restconf.Prelude.{[], ℕ, Bool, Option, none, some, if◌then◌else◌}
use restconf.Text.{Bytes, codes, beq}
use restconf.Errors.{Error, Run, panicked, ret}
use restconf.Device.{Yang, Local, add}
use restconf.CallHome.{Options, CallHome, Remote, new_call_home, apply_options}

-- The node holds a copy of the options from when it was made, which an edit changes.
pub record CallHomeNode (Device : Type 0) : Type 0 where
  pub options : Options
  pub call_home : CallHome Device

-- A field: whether it is registered, or what the base has.
pub data FieldAnswer : Type 0 where
  flag : Bool → FieldAnswer
  of_base : FieldAnswer

module _ {Device : Type 0} where
  unfoldable pub call_home_node : CallHome Device → CallHomeNode Device
  call_home_node ch = record { options = ch.options; call_home = ch }

  -- OnField
  unfoldable pub call_home_field : CallHomeNode Device → (ident : Bytes) → FieldAnswer
  call_home_field n ident =
      if beq ident (codes "registered") then flag n.call_home.registered else of_base

module _ {St Device Browser Rpc : Type 0} (remote : Remote St Device Browser Rpc) where
  applied : Options → Option (Run (CallHome Device × St)) → Option (Run (CallHomeNode Device × St))
  applied options none = none
  applied options (some panicked) = some panicked
  applied options (some (ret (ch, s))) =
      some (ret (record { options = options; call_home = ch }, s))

  -- OnEndEdit, for the answer of the base: its error, or the node and the world after ApplyOptions,
  -- which returns no error
  unfoldable pub call_home_end_edit :
      (fuel : ℕ)
      → (base : Option Error) → CallHomeNode Device
      → St
      → Option Error × Option (Run (CallHomeNode Device × St))
  unfolding applied
  call_home_end_edit fuel (some e) n s = (some e, some (ret (n, s)))
  call_home_end_edit fuel none n s =
      (none, applied n.options (apply_options remote fuel n.options n.call_home s))

-- DefaultOptions; `getenv` is os.Getenv
unfoldable pub default_options : (getenv : Bytes → Bytes) → Options
default_options getenv = record {
  device_id = getenv (codes "DEVICE_ID");
  address = getenv (codes "CALLHOME_ADDR");
  local_address = [];
  retry_rate_ms = 0;
}

module _ {Node Source Browser Value Object St Device : Type 0}
    (yang : Yang Node Source Browser Value Object St) where
  -- Install; `make_node` is the node over the base that ReflectChild makes
  unfoldable pub install :
      (make_node : CallHomeNode Device → Node)
      → (getenv : Bytes → Bytes) → Local Browser
      → Option Error × Local Browser
  unfolding default_options
  install make_node getenv d =
      add yang (codes "fc-call-home-client")
        (make_node (call_home_node (new_call_home (default_options getenv)))) d
