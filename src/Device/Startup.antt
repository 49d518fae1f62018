-- ===== src/Device/Startup.antt =====
-- The configuration at startup of a local device (device/local.go).
use restconf.Prelude.{Option, none, some, List, [], ◌∷◌, ◌++◌, ◌≡◌, refl, ◌↔◌, subst}
use restconf.Text.{Bytes, codes}
use restconf.Errors.{Error, not_found, Run, panicked, ret}
use restconf.Device.{Yang, Local, browser, apply_startup_config_data, configure, unless_failed}

module _ {Node Source Browser Value Object St : Type 0}
    (yang : Yang Node Source Browser Value Object St) where
  -- Every entry of a configuration has a browser, is an object, and was taken by the browser, one
  -- after the other.
  pub data Applied (d : Local Browser) : List (Bytes × Value) → St → St → Type 0 where
    none_left : {s : St} → Applied d [] s s
    then_rest :
        {name : Bytes} {value : Value} {config : List (Bytes × Value)} {s t u : St} (b : Browser)
        (o : Object)
        → (browser d name).0 ≡ some b
        → yang.object value ≡ some o
        → yang.upsert b o s ≡ (none, t)
        → Applied d config t u
        → Applied d ((name, value) ∷ config) s u

  applied :
      (d : Local Browser) (config : List (Bytes × Value)) {s t : St}
      → Applied d config s t
      → (rest : List (Bytes × Value))
      → apply_startup_config_data yang d (config ++ rest) s
        ≡ apply_startup_config_data yang d rest t
  unfolding apply_startup_config_data
  applied d config none_left rest = refl
  applied d _ (then_rest {config = c} b o found object taken more) rest =
      rw (found, object, taken) (applied d c more rest)

  unless_failed_inv :
      (r : Run (Option Error × St)) (rest : St → Run (Option Error × St)) (t : St)
      → unless_failed yang r rest ≡ ret (none, t)
      → (u : St) × (r ≡ ret (none, u)) × (rest u ≡ ret (none, t))
  unfolding unless_failed
  unless_failed_inv panicked rest t e = absurd (cc e)
  unless_failed_inv (ret (some x, u)) rest t e = absurd (cc e)
  unless_failed_inv (ret (none, u)) rest t e = (u, refl, e)

  configure_inv :
      (ob : Option Browser) (name : Bytes) (oo : Option Object) (s t : St)
      → configure yang ob name oo s ≡ ret (none, t)
      → (b : Browser) × (o : Object) × (ob ≡ some b)
        × (oo ≡ some o)
        × (yang.upsert b o s ≡ (none, t))
  unfolding configure
  configure_inv none name oo s t e = absurd (cc e)
  configure_inv (some b) name none s t e = absurd (cc e)
  configure_inv (some b) name (some o) s t e = (b, o, refl, refl, cc e)

  only-Applied :
      (d : Local Browser) (config : List (Bytes × Value)) (s t : St)
      → apply_startup_config_data yang d config s ≡ ret (none, t)
      → Applied d config s t
  unfolding apply_startup_config_data
  only-Applied d [] s t e = let same : s ≡ t = cc e in subst (Applied d [] s) same none_left
  only-Applied d ((name, value) ∷ config) s t e =
      let (u, done, more) =
        unless_failed_inv (configure yang (browser d name).0 name (yang.object value) s)
          (apply_startup_config_data yang d config) t e in
      let (b, o, found, object, taken) =
        configure_inv (browser d name).0 name (yang.object value) s u done in
      then_rest b o found object taken (only-Applied d config u t more)

  Applied-all :
      {d : Local Browser} {config : List (Bytes × Value)} {s t : St}
      → Applied d config s t
      → apply_startup_config_data yang d config s ≡ ret (none, t)
  unfolding apply_startup_config_data
  Applied-all none_left = refl
  Applied-all (then_rest b o found object taken more) = rw (found, object, taken) (Applied-all more)

  -- ApplyStartupConfigData succeeds exactly when every entry has a browser, is an object, and is
  -- taken by its browser, in the order of the loop.
  pub apply_startup_config_data_iff :
      (d : Local Browser) (config : List (Bytes × Value)) (s t : St)
      → (apply_startup_config_data yang d config s ≡ ret (none, t)) ↔ Applied d config s t
  unfolding apply_startup_config_data
  apply_startup_config_data_iff d config s t = (only-Applied d config s t, λ a. Applied-all a)

  -- The first entry without a browser ends it with a not-found error that names the module. The
  -- entries before it stay applied, and none behind it is.
  apply_startup_config_data_unknown :
      (d : Local Browser) (before after : List (Bytes × Value)) (name : Bytes) (value : Value)
      (s t : St)
      → Applied d before s t
      → (browser d name).0 ≡ none
      → apply_startup_config_data yang d (before ++ (name, value) ∷ after) s
        ≡ ret (some (not_found [] (codes ". browser not found: " ++ name)), t)
  apply_startup_config_data_unknown d before after name value s t a unknown =
      rw (applied d before a ((name, value) ∷ after))
        (unfold apply_startup_config_data in rw unknown refl)
