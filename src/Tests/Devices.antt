-- ===== src/Tests/Devices.antt =====
-- A local device with the modules "bus" and "car", its configuration and its YANG library.
use mathlib.Core.Option
use mathlib.Core.List.{map}
use mathlib.Core.List.Perm
use restconf.Prelude.{
  ℕ, Bool, none, some, List, [], ◌∷◌, ◌++◌, ◌≡◌, ◌↔◌, refl, sym, ap, arith, get_elem?,
}
use restconf.Text.{Bytes, codes, beq}
use restconf.Errors.{Error, new as new_error, Result, ok, err, ret}
use restconf.Maps.{find, store}
use restconf.Server.{Opener}
use restconf.Device.{
  Meta, Yang, Local, new_with_ui, add, browser, modules, apply_startup_config_data,
}
use restconf.Device.Modules.{Built, made, added, modules_lem, modules-ident}
use restconf.Device.Startup.{Applied, apply_startup_config_data_iff}
use restconf.Device.YangLib.{LibNode, module_handle}
use restconf.Device.YangLib.Rows.{entries, module_list_rows}
use restconf.Device.YangLib.Loader.{ModuleHnd, NewEntry, load_modules}
use restconf.Device.YangLib.Loader.Loaded.{each, copied, load_modules_copies}

abbrev pub meta_of : Bytes → Meta
meta_of name = record { ident = name; revision = none; namespace = codes "urn" }

-- A browser is its module with a number, and the application keeps the numbers that it was given.
abbrev pub parser : Yang ℕ ℕ (Meta × ℕ) (Option.Option ℕ) ℕ (List ℕ)
parser = record {
  load_module = λ opener name. ok (meta_of name);
  new_browser = λ m n. (m, n);
  new_browser_source = λ m src. (m, src);
  meta = λ b. b.0;
  decode = λ text. ok [];
  object = λ v. v;
  upsert = λ b o s. (none, s ++ o ∷ []);
}

abbrev bare : Local (Meta × ℕ)
bare = new_with_ui none none

abbrev pub device : Local (Meta × ℕ)
device = (add parser (codes "car") 2 (add parser (codes "bus") 1 bare).1).1

pub device-Built : Built parser device
device-Built = added (added (made none none) (codes "bus") 1) (codes "car") 2

pub loads_by_name :
    (opener : Option.Option Opener) (name : Bytes) (m : Meta)
    → ok (meta_of name) ≡ ok m
    → m.ident ≡ name
loads_by_name opener name m e = ident_lem m (cc e)
  where
    ident_lem : (m : Meta) → meta_of name ≡ m → m.ident ≡ name
    ident_lem m q = ap Meta.ident (sym q)

modules_lem_example :
    (find (modules parser device) (codes "car")
      ≡ Option.map (λ (b : Meta × ℕ). b.0) (browser device (codes "car")).0)
    × (Option.map Meta.ident (find (modules parser device) (codes "car"))
        ≡ Option.map (λ _. codes "car") (browser device (codes "car")).0)
modules_lem_example =
    modules_lem parser loads_by_name (λ m n. refl) (λ m src. refl) device-Built (codes "car")

abbrev config : List (Bytes × Option.Option ℕ)
config = (codes "car", some 7) ∷ (codes "bus", some 8) ∷ []

apply_startup_config_data_iff_example :
    (apply_startup_config_data parser device config [] ≡ ret (none, 7 ∷ 8 ∷ []))
    ↔ Applied parser device config [] (7 ∷ 8 ∷ [])
apply_startup_config_data_iff_example =
    apply_startup_config_data_iff parser device config [] (7 ∷ 8 ∷ [])

abbrev pub mods : List (Bytes × Meta)
mods = (codes "bus", meta_of (codes "bus")) ∷ (codes "car", meta_of (codes "car")) ∷ []

-- An index of keys that are sorted already.
abbrev pub in_order : (Bytes → Bytes → Bool) → List Bytes → ℕ → Option.Option Bytes
in_order less' ks row = get_elem? ks row

abbrev pub fill : LibNode → ModuleHnd → ModuleHnd
fill n h = h

pub mods_named : (k : Bytes) (m : Meta) → find mods k ≡ some m → m.ident ≡ k
unfolding modules add store new_with_ui beq
mods_named k m e =
    modules-ident parser loads_by_name (λ n i. refl) (λ n src. refl) device-Built k m e

abbrev known : Option.Option Meta → Result Meta
known none = err (new_error [])
known (some m) = ok m

-- A resolver that has the modules.
abbrev pub resolver : ModuleHnd → Result Meta
resolver h = known (find mods h.name)

-- A selection of the list, which is copied.
abbrev pub copying :
    Unit {0}
    → (NewEntry → List (Bytes × Meta) → Option.Option Error × List (Bytes × Meta))
    → List (Bytes × Meta)
    → Option.Option Error × List (Bytes × Meta)
copying sel f acc = each f (map (copied fill) (entries module_handle mods)) acc

load_modules_copies_example :
    (loaded : List (Bytes × Meta)) × (load_modules resolver copying (ok tt) ≡ ok loaded)
    × ((k : Bytes) → find loaded k ≡ find mods k)
unfolding find beq
load_modules_copies_example =
    load_modules_copies resolver fill mods (λ n h. refl) (λ h m e. ap known e) copying tt in_order
      mods 3 (entries module_handle mods) (refl, (refl, tt)) mods_named (Perm.refl mods)
      (λ row. refl) (omega arith)
      (module_list_rows in_order mods mods 3 (refl, (refl, tt)) (Perm.refl mods) (λ row. refl)
        (omega arith)).0
      (λ f acc. refl)
