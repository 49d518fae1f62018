-- ===== src/CallHome/Register.antt =====
-- What a device is registered with when ApplyOptions returns.
use restconf.Prelude.{
  ℕ, zero, suc, ◌<◌, ◌≡◌, refl, ap, ◌≢◌, ◌⊎◌, inl, inr, true, false, Option, none, some, [], ◌++◌,
  arith, ◌==◌, subst,
}
use restconf.Text.{is_empty}
use restconf.Text.Laws.{is_empty_of_ne}
use restconf.Errors.{Error, Result, ok, err, panicked, ret}
use restconf.CallHome.{
  Options, register, Remote, CallHome, tell, update_listeners, unregister_device, after_register,
  register_device, attempt_at, attempt, register_loop, next_round, connect, apply_options,
}

module _ {St Device Browser Rpc : Type 0} (remote : Remote St Device Browser Rpc) where
  -- `c'` is `c` registered with a device that was told of it, and of which the listeners were told.
  pub record IsRegistered (c c' : CallHome Device) : Type 0 where
    pub device : Device
    pub registered : c'.registered ≡ true
    pub registrar : c'.registrar ≡ some device
    pub options : c'.options ≡ c.options
    pub told : c'.calls ≡ c.calls ++ tell c.listeners (some device) register

  -- A round that fails leaves everything as it was, and one that succeeds registers.
  abbrev Outcome : CallHome Device → Option Error × CallHome Device × St → Type 0
  Outcome c x = ((e : Error) × (x.0 ≡ some e) × (x.1 ≡ c)) ⊎ ((x.0 ≡ none) × IsRegistered c x.1)

  after_register_lem :
      (d : Device) (x : Option Error × St) (c : CallHome Device)
      → Outcome c (after_register remote d x c)
  unfolding after_register update_listeners
  after_register_lem d (some e, s) c = inl (e, refl, refl)
  after_register_lem d (none, s) c = inr (
    refl,
    record { device = d; registered = refl; registrar = refl; options = refl; told = refl },
  )

  attempt_at_lem :
      (x : Result Device × St) (c : CallHome Device) → Outcome c (attempt_at remote x c)
  unfolding attempt_at register_device
  attempt_at_lem (err e, s) c = inl (e, refl, refl)
  attempt_at_lem (ok d, s) c = after_register_lem d _ c

  attempt_lem : (c : CallHome Device) (s : St) → Outcome c (attempt remote c s)
  unfolding attempt
  attempt_lem c s = attempt_at_lem (remote.proto c.options.address s) c

  -- The `n + 1`th round succeeds, and none before.
  abbrev pub Succeeds : ℕ → CallHome Device → St → Type 0
  Succeeds zero c s = (attempt remote c s).0 ≡ none
  Succeeds (suc n) c s =
      ((e : Error) × ((attempt remote c s).0 ≡ some e))
      × Succeeds n (attempt remote c s).1 (attempt remote c s).2

  register_loop_lem :
      (n fuel : ℕ) (c : CallHome Device) (s : St)
      → Succeeds n c s
      → 0 < c.options.retry_rate_ms
      → n < fuel
      → (c' : CallHome Device) × (s' : St) × (register_loop remote fuel c s ≡ some (ret (c', s')))
        × IsRegistered c c'
  unfolding register_loop next_round
  register_loop_lem n zero c s h rate enough = absurd (omega arith)
  register_loop_lem zero (suc fuel) c s h rate enough = elim (attempt_lem c s) [
    | inl (e, first, same) ↦ absurd (cc)
    | inr (first, is) ↦ ((attempt remote c s).1, (attempt remote c s).2, rw first refl, is)
  ]
  register_loop_lem (suc n) (suc fuel) c s ((e, first), h) rate enough = elim (attempt_lem c s) [
    | inr (none_then, is) ↦ absurd (cc)
    | inl (x, again_fails, same) ↦
        let kept = ap (λ (d : CallHome Device). d.options.retry_rate_ms) same in
        let again : ((attempt remote c s).1.options.retry_rate_ms == 0) ≡ false = ground arith in
        let (c', s', e', is) =
          register_loop_lem n fuel (attempt remote c s).1 (attempt remote c s).2 h
            (omega (arith, kept)) (omega arith) in
        (c', s', rw (first, again) e', subst (λ (d : CallHome Device). IsRegistered d c') same is)
  ]

  -- With an address, a retry rate and a controller that is reached in the end, ApplyOptions returns
  -- after as many rounds as that takes: whatever the state before, the device is registered then,
  -- under the new options, and every listener learns of it behind what unregister told.
  pub apply_options_registers :
      (n fuel : ℕ) (options : Options) (c : CallHome Device) (s : St)
      → options.address ≢ []
      → 0 < options.retry_rate_ms
      → (let (e, c', s') = unregister_device remote c s in
          Succeeds n (record c' { options = options; registered = false }) s')
      → n < fuel
      → (c' : CallHome Device) × (s' : St) × (apply_options remote fuel options c s
          ≡ some (ret (c', s')))
        × IsRegistered
            (record ((unregister_device remote c s).1) { options = options; registered = false })
            c'
  unfolding apply_options connect
  apply_options_registers n fuel options c s addressed rate h enough =
      let some_address : is_empty options.address ≡ false =
        is_empty_of_ne options.address addressed in
      let (c', s', e, is) = register_loop_lem n fuel _ _ h rate enough in
      (c', s', rw some_address e, is)

  -- Without a retry rate, an address that is not reached at once is a panic.
  apply_options_panics :
      (fuel : ℕ) (options : Options) (c : CallHome Device) (s : St) (e : Error)
      → options.address ≢ []
      → options.retry_rate_ms ≡ 0
      → (let (x, c', s') = unregister_device remote c s in
          (attempt remote (record c' { options = options; registered = false }) s').0 ≡ some e)
      → apply_options remote (suc fuel) options c s ≡ some panicked
  unfolding apply_options connect register_loop next_round
  apply_options_panics fuel options c s e addressed rate fails =
      let some_address : is_empty options.address ≡ false =
        is_empty_of_ne options.address addressed in
      let (x, c', s') = unregister_device remote c s in
      let d : CallHome Device = record c' { options = options; registered = false } in
      elim (attempt_lem d s') [
        | inr (first, is) ↦ absurd (cc)
        | inl (y, first, same) ↦
            let kept = ap (λ (k : CallHome Device). k.options.retry_rate_ms) same in
            let stop : ((attempt remote d s').1.options.retry_rate_ms == 0) ≡ true = ground arith in
            rw (some_address, fails, stop) refl
      ]
