-- ===== src/CallHome.antt =====
-- callhome/call_home.go: registration with a remote controller. What the protocol handler and the
-- controller do is the record `Remote`, over a state of the world `St`, which sees each attempt.
pub mod Register
pub mod Manage
use restconf.Prelude.{
  ℕ, zero, suc, Bool, true, false, Option, none, some, List, [], ◌∷◌, ◌++◌, ◌==◌, if◌then◌else◌,
}
use restconf.Text.{Bytes, codes, is_empty}
use restconf.Errors.{Error, new, Result, ok, err, Run, panicked, ret}

pub record Options : Type 0 where
  pub device_id : Bytes
  pub address : Bytes
  pub local_address : Bytes
  pub retry_rate_ms : ℕ

pub data RegisterUpdate : Type 0 where
  register unregister : RegisterUpdate

-- What register sends: the id of the device and its local address. unregister sends nothing.
pub record Registration : Type 0 where
  pub device_id : Bytes
  pub address : Bytes

pub record Remote (St Device Browser Rpc : Type 0) : Type 0 where
  pub proto : Bytes → St → Result Device × St
  pub browser : Device → Bytes → Result (Option Browser)
  pub find : Browser → Bytes → Result Rpc
  pub action : Rpc → Option Registration → St → Option Error × St

-- A listener is a number; `calls` are its calls, with the device and the update. LastErr is never set.
pub record CallHome (Device : Type 0) : Type 0 where
  pub options : Options
  pub registered : Bool
  pub registrar : Option Device
  pub listeners : List ℕ
  pub calls : List (ℕ × Option Device × RegisterUpdate)

module _ {Device : Type 0} where
  -- New, with the options of the environment
  unfoldable pub new_call_home : Options → CallHome Device
  new_call_home options = record {
    options = options;
    registered = false;
    registrar = none;
    listeners = [];
    calls = [];
  }

  unfoldable pub tell :
      List ℕ → Option Device → RegisterUpdate → List (ℕ × Option Device × RegisterUpdate)
  tell [] d update = []
  tell (l ∷ ls) d update = (l, d, update) ∷ tell ls d update

  unfoldable pub update_listeners :
      Option Device → RegisterUpdate → CallHome Device → CallHome Device
  unfolding tell
  update_listeners d update c = record c {
    registrar = d;
    calls = c.calls ++ tell c.listeners d update;
  }

  -- OnRegister: a listener learns of a registration that is there
  unfoldable pub on_register : ℕ → CallHome Device → CallHome Device
  on_register l c = record c {
    listeners = c.listeners ++ l ∷ [];
    calls = if c.registered then c.calls ++ (l, c.registrar, register) ∷ [] else c.calls;
  }

module _ {St Device Browser Rpc : Type 0} (remote : Remote St Device Browser Rpc) where
  abbrev pub mod_name : Bytes
  mod_name = codes "fc-call-home-server"

  has_module : Result (Option Browser) → Result Browser
  has_module (err e) = err e
  has_module (ok none) = err (new (mod_name ++ codes " module not found on remote target"))
  has_module (ok (some b)) = ok b

  unfoldable pub server_api : Device → Result Browser
  unfolding has_module
  server_api d = has_module (remote.browser d mod_name)

  call_found : Result Rpc → Option Registration → St → Option Error × St
  call_found (err e) input s = (some e, s)
  call_found (ok rpc) input s = remote.action rpc input s

  -- the rpc "register", which unregister calls as well
  call_api : Result Browser → Option Registration → St → Option Error × St
  unfolding call_found
  call_api (err e) input s = (some e, s)
  call_api (ok b) input s = call_found (remote.find b (codes "register")) input s

  unregister_at : Result Device × St → CallHome Device → Option Error × CallHome Device × St
  unfolding call_api
  unregister_at (err e, s) c = (some e, c, s)
  unregister_at (ok d, s) c =
      let (e, s') = call_api (server_api d) none s in
      (e, record (update_listeners (some d) unregister c) { registered = false }, s')

  unfoldable pub unregister_device : CallHome Device → St → Option Error × CallHome Device × St
  unfolding unregister_at
  unregister_device c s =
      if c.registered then unregister_at (remote.proto c.options.address s) c else (none, c, s)

  after_register :
      Device → Option Error × St → CallHome Device → Option Error × CallHome Device × St
  after_register d (some e, s) c = (some e, c, s)
  after_register d (none, s) c =
      (none, record (update_listeners (some d) register c) { registered = true }, s)

  unfoldable pub register_device :
      Device → CallHome Device → St → Option Error × CallHome Device × St
  unfolding after_register call_api
  register_device d c s =
      let input : Registration = record {
        device_id = c.options.device_id;
        address = c.options.local_address;
      } in
      after_register d (call_api (server_api d) (some input) s) c

  -- One round of the loop of Register.
  attempt_at : Result Device × St → CallHome Device → Option Error × CallHome Device × St
  attempt_at (err e, s) c = (some e, c, s)
  attempt_at (ok d, s) c = register_device d c s

  unfoldable pub attempt : CallHome Device → St → Option Error × CallHome Device × St
  unfolding attempt_at
  attempt c s = attempt_at (remote.proto c.options.address s) c

  -- what follows a round: the return, the panic, or the next round
  next_round :
      Option Error
      → CallHome Device
      → St
      → Option (Run (CallHome Device × St))
      → Option (Run (CallHome Device × St))
  next_round none c s rest = some (ret (c, s))
  next_round (some _) c s rest = if c.options.retry_rate_ms == 0 then some panicked else rest

  -- Register, for at most `fuel` rounds: `none` if they were not enough
  unfoldable pub register_loop :
      (fuel : ℕ) → CallHome Device → St → Option (Run (CallHome Device × St))
  unfolding next_round
  register_loop zero c s = none
  register_loop (suc fuel) c s =
      let (e, c', s') = attempt c s in
      let rest = register_loop fuel c' s' in next_round e c' s' rest

  connect : (fuel : ℕ) → CallHome Device → St → Option (Run (CallHome Device × St))
  connect fuel c s =
      if is_empty c.options.address then some (ret (c, s)) else register_loop fuel c s

  -- ApplyOptions: the error of unregister is logged only
  unfoldable pub apply_options :
      (fuel : ℕ) → Options → CallHome Device → St → Option (Run (CallHome Device × St))
  unfolding connect
  apply_options fuel options c s =
      let (e, c', s') = unregister_device c s in
      connect fuel (record c' { options = options; registered = false }) s'
