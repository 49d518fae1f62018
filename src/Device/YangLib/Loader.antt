-- ===== src/Device/YangLib/Loader.antt =====
-- device/yang_lib.go: loading the modules that a YANG library names.
pub mod Loaded
use restconf.Prelude.{Option, none, some, List, []}
use restconf.Text.{Bytes}
use restconf.Errors.{Error, Result, ok, err}
use restconf.Maps.{store}
use restconf.Device.{Meta}

pub record DeviationHnd : Type 0 where
  pub name : Bytes
  pub revision : Bytes

pub record ModuleHnd : Type 0 where
  pub name : Bytes
  pub schema : Bytes
  pub revision : Bytes
  pub namespace : Bytes
  pub feature : List Bytes
  pub conformance_type : Bytes
  pub deviation : List DeviationHnd

-- One new entry of a list that is inserted: the text of its key, what nodeutil.ReflectChild writes
-- to the handle, and the error of the base node at the end of the edit.
pub record NewEntry : Type 0 where
  pub key : Bytes
  pub fill : ModuleHnd → ModuleHnd
  pub end_edit : Option Error

new_hnd : Bytes → ModuleHnd
new_hnd name = record {
  name = name;
  schema = [];
  revision = [];
  namespace = [];
  feature = [];
  conformance_type = [];
  deviation = [];
}

module _ (resolve_module_hnd : ModuleHnd → Result Meta) where
  resolved : Result Meta → List (Bytes × Meta) → Option Error × List (Bytes × Meta)
  resolved (err e) mods = (some e, mods)
  resolved (ok mod') mods = (none, store mods mod'.ident mod')

  -- OnEndEdit of loadModuleNode
  unfoldable pub load_module_node :
      ModuleHnd → Option Error → List (Bytes × Meta) → Option Error × List (Bytes × Meta)
  unfolding resolved
  load_module_node hnd (some e) mods = (some e, mods)
  load_module_node hnd none mods = resolved (resolve_module_hnd hnd) mods

  -- loadModulesListNode, at a new entry
  unfoldable pub load_modules_list_node :
      NewEntry → List (Bytes × Meta) → Option Error × List (Bytes × Meta)
  unfolding load_module_node new_hnd
  load_modules_list_node e mods = load_module_node (e.fill (new_hnd e.key)) e.end_edit mods

  inserted : Option Error × List (Bytes × Meta) → Result (List (Bytes × Meta))
  inserted (some e, mods) = err e
  inserted (none, mods) = ok mods

  module _ {Sel : Type 0} where
    -- `found` is what Find answers for modules-state/module, a nil selection being one of Sel.
    -- `insert_into` is InsertInto of the selection into the list node, by what the node does at a new
    -- entry.
    unfoldable pub load_modules :
        (insert_into : Sel
          → (NewEntry → List (Bytes × Meta) → Option Error × List (Bytes × Meta))
          → List (Bytes × Meta)
          → Option Error × List (Bytes × Meta))
        → (found : Result Sel) → Result (List (Bytes × Meta))
    unfolding inserted load_modules_list_node
    load_modules insert_into (err e) = err e
    load_modules insert_into (ok sel) = inserted (insert_into sel load_modules_list_node [])
