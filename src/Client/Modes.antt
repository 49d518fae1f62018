-- ===== src/Client/Modes.antt =====
-- clientNode.node of client/node.go: the node of a client, which reads what its server has, or gathers
-- the changes of an edit and sends them. Nodes of package nodeutil and selections are the record
-- NodeOps, over a state that holds the network and what nodes write to.
pub mod Sessions
use restconf.Prelude.{Bool, true, false, not, Option, none, some, List, [], ◌∷◌, if◌then◌else◌}
use restconf.Text.{Bytes, codes}
use restconf.Errors.{Error, Result, ok, err, Run, panicked, ret, and_then}
use restconf.Compliance.{ComplianceOptions}
use restconf.Client.{NodePath, Address, Network}
use restconf.Client.Node.{Insertion, Json, get, request, valid_navigation, request_action}

-- node.ChildRequest, with its selection's path, and the path of the child for a deletion
pub record ChildRequest : Type 0 where
  pub is_navigation : Bool
  pub target : NodePath
  pub delete : Bool
  pub new : Bool
  pub path : NodePath
  pub child_path : NodePath

-- node.ListRequest; a key is nil, or the texts of its values
pub record ListRequest : Type 0 where
  pub is_navigation : Bool
  pub target : NodePath
  pub new : Bool
  pub path : NodePath
  pub key : Option (List Bytes)

-- node.FieldRequest
pub record FieldRequest : Type 0 where
  pub is_navigation : Bool
  pub path : NodePath
  pub ident : Bytes

-- node.NodeRequest, at the begin and at the end of an edit
pub record NodeRequest : Type 0 where
  pub edit_root : Bool
  pub new : Bool
  pub delete : Bool
  pub path : NodePath

-- Methods of nodes; `extended_next` and `extended_field` are those of a nodeutil.Extend that has no
-- function of its own for them, by its base. `reflect_map` is ReflectChild of a new map, and `split`
-- the Split of the selection at a path, as it is inserted later.
pub record NodeOps (Node St : Type 0) : Type 0 where
  pub child : Node → ChildRequest → St → Result (Option Node) × St
  pub next : Node → ListRequest → St → Result (Option (Node × Option (List Bytes))) × St
  pub field : Node → FieldRequest → St → Option Error × St
  pub extended_next : Node → ListRequest → St → Result (Option (Node × Option (List Bytes))) × St
  pub extended_field : Node → FieldRequest → St → Option Error × St
  pub reflect_map : St → Node × St
  pub split : NodePath → Option Node → Insertion

-- The nodeutil.Extend of startEditMode, with what its OnChild holds
pub record EditNode (Node : Type 0) : Type 0 where
  pub base : Node
  pub existing : Option Node

pub record ClientNode (Node : Type 0) : Type 0 where
  pub params : Bytes
  pub read : Option Node
  pub edit : Option (EditNode Node)
  pub method : Bytes
  pub changes : Option Node
  pub device : Bytes

-- A node that is handed out: the client's own, or another.
pub data Reply (Node : Type 0) : Type 0 where
  this : Reply Node
  other : Node → Reply Node

abbrev pub edit_params : Bytes
edit_params = codes "depth=1&content=config&with-defaults=trim"

module _ {Node St : Type 0} (ops : NodeOps Node St) (json : Json Node) (network : Network St)
    (address : Address) (compliance : ComplianceOptions) where
  abbrev pub Client : Type 0
  Client = ClientNode Node

  -- what a method answers, with the client's node and the state after it
  abbrev pub Outcome : Type 0 → Type 0
  Outcome A = Run (A × Client × St)

  read_mode : Client → Result (Option Node) × St → Outcome (Option Error)
  read_mode cn (err e, s) = ret (some e, record cn { read = none }, s)
  read_mode cn (ok n, s) = ret (none, record cn { read = n }, s)

  unfoldable pub start_read_mode : NodePath → Client → St → Outcome (Option Error)
  unfolding read_mode
  start_read_mode path cn s =
      and_then (get json network address compliance path cn.params s) (read_mode cn)

  edit_mode : Client → Result (Option Node) × St → Outcome (Option Error)
  edit_mode cn (err e, s) = ret (some e, cn, s)
  edit_mode cn (ok existing, s) =
      let (changes, s') = ops.reflect_map s in
      ret (
        none,
        record cn {
          changes = some changes;
          edit = some (record { base = changes; existing = existing });
        },
        s',
      )

  unfoldable pub start_edit_mode : NodePath → Client → St → Outcome (Option Error)
  unfolding edit_mode
  start_edit_mode path cn s =
      and_then (get json network address compliance path edit_params s) (edit_mode cn)

  -- OnBeginEdit
  unfoldable pub on_begin_edit : NodeRequest → Client → St → Outcome (Option Error)
  unfolding start_edit_mode
  on_begin_edit r cn s =
      if not r.edit_root
      then ret (none, cn, s)
      else start_edit_mode r.path
          (record cn { method = if r.new then codes "POST" else codes "PATCH" }) s

  -- OnRelease
  unfoldable pub on_release : Client → Client
  on_release cn = record cn { read = none; edit = none; changes = none }

  module _ {A : Type 0} (fail : Error → A) (method : Node → St → A × St) where
    -- a method of cn.read; of a nil one it is a panic
    of_read : Option Node → Client → St → Outcome A
    of_read none cn s = panicked
    of_read (some n) cn s = let (a, s') = method n s in ret (a, cn, s')

    started : Option Error × Client × St → Outcome A
    unfolding of_read
    started (some e, cn, s) = ret (fail e, cn, s)
    started (none, cn, s) = of_read cn.read cn s

    -- the end of OnChild, OnNext and OnField
    reading : Option Node → NodePath → Client → St → Outcome A
    unfolding of_read started start_read_mode
    reading none path cn s = and_then (start_read_mode path cn s) started
    reading (some n) path cn s = of_read (some n) cn s

  module _ {A : Type 0} (found : A) (missing : A) (fail : Error → A) where
    navigated : (Bool × Option Error) × St → Client → Outcome A
    navigated ((valid, some e), s) cn = ret (fail e, cn, s)
    navigated ((true, none), s) cn = ret (found, cn, s)
    navigated ((false, none), s) cn = ret (missing, cn, s)

  replied : Result (Option Node) × St → Result (Option (Reply Node)) × St
  replied (err e, s) = (err e, s)
  replied (ok none, s) = (ok none, s)
  replied (ok (some n), s) = (ok (some (other n)), s)

  replied_next :
      Result (Option (Node × Option (List Bytes))) × St
      → Result (Option (Reply Node × Option (List Bytes))) × St
  replied_next (err e, s) = (err e, s)
  replied_next (ok none, s) = (ok none, s)
  replied_next (ok (some (n, key)), s) = (ok (some (other n, key)), s)

  -- OnChild of the Extend: a child that is not new is that of what there is, if there is any
  child_over : EditNode Node → Bool → Option Node → ChildRequest → St → Result (Option Node) × St
  child_over e true existing r s = ops.child e.base r s
  child_over e false none r s = ops.child e.base r s
  child_over e false (some n) r s = ops.child n r s

  unfoldable pub edit_child : EditNode Node → ChildRequest → St → Result (Option Node) × St
  unfolding child_over
  edit_child e r s = child_over e r.new e.existing r s

  child_here :
      Option (EditNode Node) → ChildRequest → Client → St → Outcome (Result (Option (Reply Node)))
  unfolding edit_child replied reading
  child_here (some e) r cn s = let (a, s') = replied (edit_child e r s) in ret (a, cn, s')
  child_here none r cn s = reading err (λ n s'. replied (ops.child n r s')) cn.read r.path cn s

  deleted : Result (Option Node) × St → Client → Outcome (Result (Option (Reply Node)))
  deleted (err e, s) cn = ret (err e, cn, s)
  deleted (ok _, s) cn = ret (ok none, cn, s)

  unfoldable pub on_child : ChildRequest → Client → St → Outcome (Result (Option (Reply Node)))
  unfolding navigated deleted child_here
  on_child r cn s =
      if r.is_navigation
      then navigated (ok (some this)) (ok none) err
          (valid_navigation json network address compliance r.target s) cn
      else if r.delete
      then deleted (request json network address compliance (codes "DELETE") r.child_path none s) cn
      else child_here cn.edit r cn s

  next_here :
      Option (EditNode Node)
      → ListRequest
      → Client
      → St
      → Outcome (Result (Option (Reply Node × Option (List Bytes))))
  unfolding replied_next reading
  next_here (some e) r cn s =
      let (a, s') = replied_next (ops.extended_next e.base r s) in ret (a, cn, s')
  next_here none r cn s = reading err (λ n s'. replied_next (ops.next n r s')) cn.read r.path cn s

  unfoldable pub on_next :
      ListRequest → Client → St → Outcome (Result (Option (Reply Node × Option (List Bytes))))
  unfolding navigated next_here
  on_next r cn s =
      if r.is_navigation
      then navigated (ok (some (this, r.key))) (ok none) err
          (valid_navigation json network address compliance r.target s) cn
      else next_here cn.edit r cn s

  field_here : Option (EditNode Node) → FieldRequest → Client → St → Outcome (Option Error)
  unfolding reading
  field_here (some e) r cn s = let (a, s') = ops.extended_field e.base r s in ret (a, cn, s')
  field_here none r cn s = reading some (λ n s'. ops.field n r s') cn.read r.path cn s

  unfoldable pub on_field : FieldRequest → Client → St → Outcome (Option Error)
  unfolding field_here
  on_field r cn s = if r.is_navigation then ret (none, cn, s) else field_here cn.edit r cn s

  -- OnAction
  unfoldable pub on_action :
      NodePath → Option Insertion → Client → St → Outcome (Result (Option Node))
  on_action path input cn s =
      let (a, s') = request_action json network address compliance path input s in ret (a, cn, s')

  sent : Result (Option Node) × St → Client → Outcome (Option Error)
  sent (err e, s) cn = ret (some e, cn, s)
  sent (ok _, s) cn = ret (none, cn, s)

  -- OnEndEdit
  unfoldable pub on_end_edit : NodeRequest → Client → St → Outcome (Option Error)
  unfolding sent
  on_end_edit r cn s =
      if not r.edit_root
      then ret (none, cn, s)
      else if r.delete
      then ret (none, cn, s)
      else sent
          (request json network address compliance cn.method r.path
            (some (ops.split r.path cn.changes)) s)
          cn
