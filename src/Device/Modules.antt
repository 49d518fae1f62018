-- ===== src/Device/Modules.antt =====
-- The modules of a local device (device/local.go), over every way to fill it.
use mathlib.Core.Option
use restconf.Prelude.{
  none, some, List, [], ◌∷◌, ◌≡◌, refl, sym, ap, ◌∙◌, arith, if◌then◌else◌, Bool-cases, inl, inr,
  Option-cases, All,
}
use restconf.Text.{Bytes, beq}
use restconf.Text.Laws.{beq_iff}
use restconf.Errors.{ok, Result-cases}
use restconf.Maps.{find, store}
use restconf.Maps.Laws.{find-store, IsMap, store-IsMap}
use restconf.Server.{Opener}
use restconf.Device.{
  Meta, Yang, Local, new_with_ui, browser, modules_from, modules, add, add_source, add_browser, put,
}

ident_of :
    {B : Type 0} (k : Bytes) (o : Option.Option B) (m : Meta)
    → some m.ident ≡ Option.map (λ _. k) o
    → m.ident ≡ k
ident_of k none m q = absurd (cc q)
ident_of k (some b) m q = cc q

module _ {Node Source Browser Value Object St : Type 0}
    (yang : Yang Node Source Browser Value Object St) where
  -- A browser stands under the name of its module.
  abbrev IsNamed : Bytes × Browser → Type 0
  IsNamed (k, b) = (yang.meta b).ident ≡ k

  record IsKeyed (d : Local Browser) : Type 0 where
    named : All IsNamed d.browsers
    once : IsMap d.browsers

  -- The devices that New, NewWithUi, Add, AddSource and AddBrowser make.
  pub data Built : Local Browser → Type 0 where
    made :
        (schema_source ui_source : Option.Option Opener)
        → Built (new_with_ui schema_source ui_source)
    added : {d : Local Browser} → Built d → (name : Bytes) (n : Node) → Built (add yang name n d).1
    added_source :
        {d : Local Browser}
        → Built d
        → (name : Bytes) (src : Source) → Built (add_source yang name src d).1
    added_browser : {d : Local Browser} → Built d → (b : Browser) → Built (add_browser yang b d)

  store-IsNamed :
      (bs : List (Bytes × Browser)) (k : Bytes) (b : Browser)
      → IsNamed (k, b)
      → All IsNamed bs
      → All IsNamed (store bs k b)
  unfolding store
  store-IsNamed [] k b n h = (n, tt)
  store-IsNamed ((j, c) ∷ bs) k b n h = elim (Bool-cases (beq j k)) [
    | inl same ↦ rw same (n, h.1)
    | inr other ↦ rw other (h.0, store-IsNamed bs k b n h.1)
  ]

  find-IsNamed :
      (bs : List (Bytes × Browser)) (k : Bytes) (b : Browser)
      → All IsNamed bs
      → find bs k ≡ some b
      → (yang.meta b).ident ≡ k
  unfolding find
  find-IsNamed [] k b h e = cc
  find-IsNamed ((j, c) ∷ bs) k b h e = elim (Bool-cases (beq j k)) [
    | inl same ↦ let e' : c ≡ b = ground (arith) in rw (← e') (h.0 ∙ (beq_iff j k).0 same)
    | inr other ↦ find-IsNamed bs k b h.1 (ground arith)
  ]

  add_browser-IsKeyed :
      (b : Browser) (d : Local Browser) → IsKeyed d → IsKeyed (add_browser yang b d)
  unfolding add_browser
  add_browser-IsKeyed b d v = record {
    named = store-IsNamed d.browsers (yang.meta b).ident b refl v.named;
    once = store-IsMap d.browsers (yang.meta b).ident b v.once;
  }

  above : Option.Option Browser → Option.Option Meta → Option.Option Meta
  above (some b) m = some (yang.meta b)
  above none m = m

  -- Modules finds what the loop over the browsers has stored, on top of what was there.
  find-modules_from :
      (bs : List (Bytes × Browser)) (mods : List (Bytes × Meta)) (k : Bytes)
      → All IsNamed bs
      → IsMap bs
      → find (modules_from yang mods bs) k ≡ above (find bs k) (find mods k)
  unfolding modules_from find above
  find-modules_from [] mods k h v = refl
  find-modules_from ((j, b) ∷ bs) mods k h v =
      let m = yang.meta b in
      let stored : find (store mods m.ident m) k ≡ (if beq j k then some m else find mods k) =
        rw (← h.0) (find-store mods m.ident k m) in
      let rest = find-modules_from bs (store mods m.ident m) k h.1 v.1 in
      elim (Bool-cases (beq j k)) [
        | inl same ↦
            let gone : find bs k ≡ none = rw (← (beq_iff j k).0 same) v.0 in
            rw same (rest ∙ rw gone (stored ∙ rw same refl))
        | inr other ↦ rw other (rest ∙ rw (stored, other) refl)
      ]

  modules_from-IsMap :
      (bs : List (Bytes × Browser)) (mods : List (Bytes × Meta))
      → IsMap mods
      → IsMap (modules_from yang mods bs)
  unfolding modules_from
  modules_from-IsMap [] mods h = h
  modules_from-IsMap ((k, b) ∷ bs) mods h =
      modules_from-IsMap bs (store mods (yang.meta b).ident (yang.meta b))
        (store-IsMap mods (yang.meta b).ident (yang.meta b) h)

  pub modules-IsMap : (d : Local Browser) → IsMap (modules yang d)
  unfolding modules
  modules-IsMap d = modules_from-IsMap d.browsers [] tt

  module _
      (names : (opener : Option.Option Opener) (name : Bytes) (m : Meta)
        → yang.load_module opener name ≡ ok m
        → m.ident ≡ name)
      (keeps : (m : Meta) (n : Node) → yang.meta (yang.new_browser m n) ≡ m)
      (keeps_source : (m : Meta) (src : Source)
        → yang.meta (yang.new_browser_source m src) ≡ m) where
    put-IsKeyed :
        (make : Meta → Browser)
        → ((m : Meta) → yang.meta (make m) ≡ m)
        → (name : Bytes) (d : Local Browser) → IsKeyed d
        → IsKeyed (put yang make name (yang.load_module d.schema_source name) d).1
    unfolding put
    put-IsKeyed make kept name d v = elim (Result-cases (yang.load_module d.schema_source name)) [
      | inl (m, e) ↦ rw e (record {
        named =
            store-IsNamed d.browsers name (make m)
              (ap Meta.ident (kept m) ∙ names d.schema_source name m e) v.named;
        once = store-IsMap d.browsers name (make m) v.once;
      })
      | inr (x, e) ↦ rw e v
    ]

    Built-IsKeyed : {d : Local Browser} → Built d → IsKeyed d
    unfolding add add_source new_with_ui
    Built-IsKeyed (made s u) = record { named = tt; once = tt }
    Built-IsKeyed (added {d} bd name n) =
        put-IsKeyed (λ m. yang.new_browser m n) (λ m. keeps m n) name d (Built-IsKeyed bd)
    Built-IsKeyed (added_source {d} bd name src) =
        put-IsKeyed (λ m. yang.new_browser_source m src) (λ m. keeps_source m src) name d
          (Built-IsKeyed bd)
    Built-IsKeyed (added_browser {d} bd b) = add_browser-IsKeyed b d (Built-IsKeyed bd)

    -- For a device that was filled in any way, Modules maps a name to the module of the browser that
    -- Browser gives for the name, and to nothing where it gives none; and each module stands under
    -- its own name. The parser has to give modules of the names it is asked for, and a browser to keep
    -- its module.
    pub modules_lem :
        {d : Local Browser}
        → Built d
        → (k : Bytes)
        → (find (modules yang d) k ≡ Option.map yang.meta (browser d k).0)
          × (Option.map Meta.ident (find (modules yang d) k) ≡ Option.map (λ _. k) (browser d k).0)
    unfolding modules browser above find
    modules_lem {d} built k =
        let v = Built-IsKeyed built in
        let found = find-modules_from d.browsers [] k v.named v.once in
        elim (Option-cases (find d.browsers k)) [
          | inl e ↦
              let gone : find (modules_from yang [] d.browsers) k ≡ none = found ∙ rw e refl in
              (gone ∙ rw e refl, rw (gone, e) refl)
          | inr (b, e) ↦
              let there : find (modules_from yang [] d.browsers) k ≡ some (yang.meta b) =
                found ∙ rw e refl in
              (there ∙ rw e refl, rw (there, e) (ap some (find-IsNamed d.browsers k b v.named e)))
        ]

    pub modules-ident :
        {d : Local Browser}
        → Built d
        → (k : Bytes) (m : Meta) → find (modules yang d) k ≡ some m
        → m.ident ≡ k
    modules-ident {d} built k m e =
        ident_of k (browser d k).0 m (ap (Option.map Meta.ident) (sym e) ∙ (modules_lem built k).1)
