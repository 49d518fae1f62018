-- ===== src/Tests/Registration.antt =====
-- A controller that is reached at the second attempt; the world counts the attempts.
use restconf.Prelude.{ℕ, ◌+◌, ◌≡◌, refl, false, none, some, [], ◌∷◌, arith, ◌==◌, if◌then◌else◌}
use restconf.Text.{codes}
use restconf.Errors.{Error, new, ok, err, ret}
use restconf.CallHome.{
  Options, Remote, CallHome, new_call_home, unregister_device, attempt, apply_options, on_register,
}
use restconf.CallHome.Register.{IsRegistered, apply_options_registers}

abbrev away : Error
away = new (codes "away")

abbrev controller : Remote ℕ ℕ ℕ ℕ
controller = record {
  proto = λ address s. if s == 0 then (err away, 1) else (ok 8, s + 1);
  browser = λ d name. ok (some 0);
  find = λ b name. ok 0;
  action = λ rpc input s. (none, s);
}

abbrev chosen : Options
chosen = record {
  device_id = codes "dev";
  address = codes "http://c";
  local_address = [];
  retry_rate_ms = 10;
}

abbrev silent : Options
silent = record chosen { address = [] }

-- One listener, and no registration yet.
abbrev car : CallHome ℕ
car = record {
  options = silent;
  registered = false;
  registrar = none;
  listeners = 7 ∷ [];
  calls = [];
}

apply_options_registers_example :
    (c' : CallHome ℕ) × (s' : ℕ) × (apply_options controller 2 chosen car 0 ≡ some (ret (c', s')))
    × IsRegistered controller
        (record ((unregister_device controller car 0).1) { options = chosen; registered = false })
        c'
unfolding unregister_device attempt restconf.CallHome.register_device restconf.CallHome.server_api
apply_options_registers_example =
    apply_options_registers controller 1 2 chosen car 0 (λ e. absurd (cc e)) (omega arith)
      ((away, refl), refl) (omega arith)
