-- ===== src/Device.antt =====
-- device/local.go: the device of a program's own modules, and its configuration at startup. What
-- packages parser, meta, node and nodeutil do is the record `Yang`, over a state `St` of the
-- application.
pub mod Modules
pub mod Startup
pub mod YangLib
use restconf.Prelude.{Option, none, some, List, [], ◌∷◌, ◌++◌}
use restconf.Text.{Bytes, codes}
use restconf.Errors.{Error, not_found, Result, ok, err, Run, panicked, ret}
use restconf.Maps.{find, store}
use restconf.Server.{Opener, Device}

-- What the program reads of a meta.Module; `revision` is Revision().Ident(), if there is a revision.
pub record Meta : Type 0 where
  pub ident : Bytes
  pub revision : Option Bytes
  pub namespace : Bytes

-- `load_module` is parser.LoadModule, `meta` the field Meta of a browser. A `Source` makes a node for
-- each selection. `decode` is json.Decoder's first object, `object` the assertion that a value of it
-- is an object, and `upsert` the UpsertFromSetDefaults of a browser's root from such an object.
pub record Yang (Node Source Browser Value Object St : Type 0) : Type 0 where
  pub load_module : Option Opener → Bytes → Result Meta
  pub new_browser : Meta → Node → Browser
  pub new_browser_source : Meta → Source → Browser
  pub meta : Browser → Meta
  pub decode : Bytes → Result (List (Bytes × Value))
  pub object : Value → Option Object
  pub upsert : Browser → Object → St → Option Error × St

pub record Local (Browser : Type 0) : Type 0 where
  pub browsers : List (Bytes × Browser)
  pub schema_source : Option Opener
  pub ui_source : Option Opener

module _ {Browser : Type 0} where
  -- New
  unfoldable pub new : Option Opener → Local Browser
  new schema_source = record { browsers = []; schema_source = schema_source; ui_source = none }

  unfoldable pub new_with_ui : (schema_source ui_source : Option Opener) → Local Browser
  new_with_ui schema_source ui_source = record {
    browsers = [];
    schema_source = schema_source;
    ui_source = ui_source;
  }

  unfoldable pub browser : Local Browser → Bytes → Option Browser × Option Error
  browser self name = (find self.browsers name, none)

  -- The device as its interface: SchemaSource, UiSource and Browser.
  unfoldable pub as_device : Local Browser → Device Browser
  unfolding browser
  as_device self = record {
    schema_source = self.schema_source;
    ui_source = self.ui_source;
    browser = browser self;
  }

module _ {Node Source Browser Value Object St : Type 0}
    (yang : Yang Node Source Browser Value Object St) where
  modules_from : List (Bytes × Meta) → List (Bytes × Browser) → List (Bytes × Meta)
  modules_from mods [] = mods
  modules_from mods ((_, b) ∷ bs) = let m = yang.meta b in modules_from (store mods m.ident m) bs

  unfoldable pub modules : Local Browser → List (Bytes × Meta)
  unfolding modules_from
  modules self = modules_from [] self.browsers

  put : (Meta → Browser) → Bytes → Result Meta → Local Browser → Option Error × Local Browser
  put make name (err e) self = (some e, self)
  put make name (ok m) self = (none, record self { browsers = store self.browsers name (make m) })

  unfoldable pub add : Bytes → Node → Local Browser → Option Error × Local Browser
  unfolding put
  add name n self =
      put (λ m. yang.new_browser m n) name (yang.load_module self.schema_source name) self

  unfoldable pub add_source : Bytes → Source → Local Browser → Option Error × Local Browser
  unfolding put
  add_source name src self =
      put (λ m. yang.new_browser_source m src) name (yang.load_module self.schema_source name) self

  unfoldable pub add_browser : Browser → Local Browser → Local Browser
  add_browser b self = record self { browsers = store self.browsers (yang.meta b).ident b }

  -- one module of the configuration, with its browser and its data; an assertion that fails is a panic
  configure : Option Browser → Bytes → Option Object → St → Run (Option Error × St)
  configure none name data' s = ret (some (not_found [] (codes ". browser not found: " ++ name)), s)
  configure (some b) name none s = panicked
  configure (some b) name (some module_cfg) s = ret (yang.upsert b module_cfg s)

  unless_failed : Run (Option Error × St) → (St → Run (Option Error × St)) → Run (Option Error × St)
  unless_failed panicked rest = panicked
  unless_failed (ret (some e, s)) rest = ret (some e, s)
  unless_failed (ret (none, s)) rest = rest s

  -- The order of the list is that of the loop over the map.
  unfoldable pub apply_startup_config_data :
      Local Browser → List (Bytes × Value) → St → Run (Option Error × St)
  unfolding configure unless_failed browser
  apply_startup_config_data self [] s = ret (none, s)
  apply_startup_config_data self ((name, value) ∷ config) s =
      unless_failed (configure (browser self name).0 name (yang.object value) s)
        (apply_startup_config_data self config)

  decoded : Local Browser → Result (List (Bytes × Value)) → St → Run (Option Error × St)
  unfolding apply_startup_config_data
  decoded self (err e) s = ret (some e, s)
  decoded self (ok cfg) s = apply_startup_config_data self cfg s

  unfoldable pub apply_startup_config : Local Browser → Bytes → St → Run (Option Error × St)
  unfolding decoded
  apply_startup_config self config s = decoded self (yang.decode config) s

  -- `opened` is os.Open's answer; a file that is nil may be closed
  unfoldable pub apply_startup_config_file :
      Local Browser → (opened : Result Bytes) → St → Run (Option Error × St)
  unfolding apply_startup_config
  apply_startup_config_file self (err e) s = ret (some e, s)
  apply_startup_config_file self (ok content) s = apply_startup_config self content s
