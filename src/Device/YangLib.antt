-- ===== src/Device/YangLib.antt =====
-- device/yang_lib_node.go: the YANG library of a device (RFC 8525). Each closure of the source is a
-- function; the node that it makes is a value of LibNode, with what the closures of that node hold.
pub mod Rows
pub mod Views
pub mod Loader
use restconf.Prelude.{ℕ, Bool, true, false, Option, none, some, List, [], ◌∷◌, ltb, if◌then◌else◌}
use restconf.Text.{Bytes, codes, beq}
use restconf.Errors.{Run, panicked, ret}
use restconf.Maps.{find}
use restconf.Device.{Meta}

pub record ModuleSet : Type 0 where
  pub ident : Bytes
  pub module_map : List (Bytes × Meta)
  pub import_only_module : List (Bytes × Meta)

pub data LibNode : Type 0 where
  -- localYangLibModuleState and localYangLibYangLibrary
  module_state : LibNode
  yang_library : List (Bytes × ModuleSet) → LibNode
  -- YangLibModuleList and yangLibModuleHandleNode
  module_list : List (Bytes × Meta) → LibNode
  module_handle : Meta → LibNode
  -- YangLibModuleSetList and yangLibModuleSetHandleNode
  module_set_list : List (Bytes × ModuleSet) → LibNode
  module_set_handle : ModuleSet → LibNode
  -- YangLibModuleSetModuleList and yangLibModuleSetModuleHandleNode
  module_set_module_list : List (Bytes × Meta) → LibNode
  module_set_module_handle : Meta → LibNode

-- What OnNext reads of a node.ListRequest; a key is nil, or the texts of its values.
pub record ListRequest : Type 0 where
  pub key : Option (List Bytes)
  pub row : ℕ

abbrev pub Entry : Type 0
Entry = LibNode × Option (List Bytes)

-- strings.Compare(a, b) < 0
unfoldable pub less : Bytes → Bytes → Bool
less a [] = false
less [] (y ∷ b) = true
less (x ∷ a) (y ∷ b) =
    let rest = less a b in if ltb x y then true else if ltb y x then false else rest

unfoldable pub keys {ℓ} : {V : Type ℓ} → List (Bytes × V) → List Bytes
keys [] = []
keys ((k, _) ∷ m) = k ∷ keys m

-- localYangLibYangLibrary, for the modules that the device has then
unfoldable pub local_yang_lib_yang_library : List (Bytes × Meta) → LibNode
local_yang_lib_yang_library mods =
    yang_library (
      (codes "all", record { ident = codes "all"; module_map = mods; import_only_module = [] })
      ∷ [])

-- OnChild of LocalDeviceYangLibNode
unfoldable pub local_device_yang_lib_child : List (Bytes × Meta) → Bytes → Option LibNode
unfolding local_yang_lib_yang_library
local_device_yang_lib_child mods ident =
    if beq ident (codes "modules-state")
    then some module_state
    else if beq ident (codes "yang-library")
    then some (local_yang_lib_yang_library mods)
    else none

-- a list of modules is there if it has an entry
unless_empty : (List (Bytes × Meta) → LibNode) → List (Bytes × Meta) → Option LibNode
unless_empty list [] = none
unless_empty list (m ∷ mods) = some (list (m ∷ mods))

-- OnChild of localYangLibModuleState, for the modules that the device has then
unfoldable pub module_state_child : List (Bytes × Meta) → Bytes → Option LibNode
unfolding unless_empty
module_state_child mods ident =
    if beq ident (codes "module") then unless_empty module_list mods else none

-- OnChild of localYangLibYangLibrary
unfoldable pub yang_library_child : List (Bytes × ModuleSet) → Bytes → Option LibNode
yang_library_child modsets ident =
    if beq ident (codes "module-set") then some (module_set_list modsets) else none

-- OnChild of yangLibModuleSetHandleNode
unfoldable pub module_set_child : ModuleSet → Bytes → Option LibNode
unfolding unless_empty
module_set_child ms ident =
    if beq ident (codes "module")
    then unless_empty module_set_module_list ms.module_map
    else if beq ident (codes "import-only-module")
    then unless_empty module_set_module_list ms.import_only_module
    else none

-- OnField: `none` where a field gets no value
unfoldable pub module_set_field : ModuleSet → Bytes → Option Bytes
module_set_field ms ident = if beq ident (codes "name") then some ms.ident else none

module _ (addresser : Meta → Bytes) where
  -- OnField of yangLibModuleHandleNode
  unfoldable pub module_field : Meta → Bytes → Option Bytes
  module_field m ident =
      if beq ident (codes "name")
      then some m.ident
      else if beq ident (codes "revision")
      then m.revision
      else if beq ident (codes "schema")
      then some (addresser m)
      else if beq ident (codes "namespace")
      then some m.namespace
      else none

  -- OnField of yangLibModuleSetModuleHandleNode
  unfoldable pub module_set_module_field : Meta → Bytes → Option Bytes
  module_set_module_field m ident =
      if beq ident (codes "name")
      then some m.ident
      else if beq ident (codes "revision")
      then m.revision
      else if beq ident (codes "namespace")
      then some m.namespace
      else if beq ident (codes "location")
      then some (addresser m)
      else none

-- `next_key less keys row` is NextKey of a node.Index over a map with these keys, sorted by `less`;
-- `none` is NO_VALUE.
module _ (next_key : (Bytes → Bytes → Bool) → List Bytes → ℕ → Option Bytes) where
  module _ {V : Type 0} (ident : V → Bytes) (handle : V → LibNode) (m : List (Bytes × V)) where
    found_by_key : List Bytes → Option V → Option Entry
    found_by_key key none = none
    found_by_key key (some v) = some (handle v, some key)

    found_by_row : Option V → Option Entry
    found_by_row none = none
    found_by_row (some v) = some (handle v, some (ident v ∷ []))

    at_row : Option Bytes → Option Entry
    unfolding found_by_row
    at_row none = none
    at_row (some k) = found_by_row (find m k)

    -- OnNext of the three lists, which differ in what they hold
    next_with : Option (List Bytes) → ℕ → Run (Option Entry)
    unfolding found_by_key at_row keys less
    next_with (some []) row = panicked
    next_with (some (k ∷ key)) row = ret (found_by_key (k ∷ key) (find m k))
    next_with none row = ret (at_row (next_key less (keys m) row))

  unfoldable pub module_list_next : List (Bytes × Meta) → ListRequest → Run (Option Entry)
  unfolding next_with
  module_list_next mods r = next_with Meta.ident module_handle mods r.key r.row

  unfoldable pub module_set_list_next : List (Bytes × ModuleSet) → ListRequest → Run (Option Entry)
  unfolding next_with
  module_set_list_next modsets r = next_with ModuleSet.ident module_set_handle modsets r.key r.row

  unfoldable pub module_set_module_list_next :
      List (Bytes × Meta) → ListRequest → Run (Option Entry)
  unfolding next_with
  module_set_module_list_next mods r =
      next_with Meta.ident module_set_module_handle mods r.key r.row
