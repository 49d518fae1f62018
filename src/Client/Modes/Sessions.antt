-- ===== src/Client/Modes/Sessions.antt =====
-- Whole reads and whole edits through the node of a client (client/node.go).
use restconf.Prelude.{false, Option, none, some, List, [], ◌∷◌, ◌≡◌}
use restconf.Text.{Bytes}
use restconf.Errors.{Error, Result, ok, err, Run, ret, and_then}
use restconf.Compliance.{ComplianceOptions}
use restconf.Client.{NodePath, Address, Network}
use restconf.Client.Node.{Json}
use restconf.Client.Modes.{
  ChildRequest, ListRequest, FieldRequest, NodeOps, EditNode, ClientNode, Reply, edit_child,
  replied, replied_next, on_child, on_next, on_field,
}

-- The requests to a node between the begin and the end of an edit, or in a read.
pub data Op : Type 0 where
  child_op : ChildRequest → Op
  next_op : ListRequest → Op
  field_op : FieldRequest → Op

pub data Answer (Node : Type 0) : Type 0 where
  child_answer : Result (Option (Reply Node)) → Answer Node
  next_answer : Result (Option (Reply Node × Option (List Bytes))) → Answer Node
  field_answer : Option Error → Answer Node

-- Neither a navigation nor a deletion.
abbrev pub IsPlain : Op → Type 0
IsPlain (child_op r) = (r.is_navigation ≡ false) × (r.delete ≡ false)
IsPlain (next_op r) = r.is_navigation ≡ false
IsPlain (field_op r) = r.is_navigation ≡ false

abbrev path_of : Op → NodePath
path_of (child_op r) = r.path
path_of (next_op r) = r.path
path_of (field_op r) = r.path

module _ {Node St : Type 0} (ops : NodeOps Node St) (json : Json Node) (network : Network St)
    (address : Address) (compliance : ComplianceOptions) where
  step : Op → ClientNode Node → St → Run (Answer Node × ClientNode Node × St)
  step (child_op r) cn s =
      and_then (on_child ops json network address compliance r cn s)
        (λ x. ret (child_answer x.0, x.1, x.2))
  step (next_op r) cn s =
      and_then (on_next ops json network address compliance r cn s)
        (λ x. ret (next_answer x.0, x.1, x.2))
  step (field_op r) cn s =
      and_then (on_field ops json network address compliance r cn s)
        (λ x. ret (field_answer x.0, x.1, x.2))

  -- One request after the other.
  pub run : List Op → ClientNode Node → St → Run (List (Answer Node) × ClientNode Node × St)
  unfolding step
  run [] cn s = ret ([], cn, s)
  run (o ∷ os) cn s =
      and_then (step o cn s) (λ x. and_then (run os x.1 x.2) (λ y. ret (x.0 ∷ y.0, y.1, y.2)))

  -- What a node that was read answers, by itself.
  pub from_node : Node → Op → St → Answer Node × St
  from_node n (child_op r) s =
      let (a, s') = replied ops json network address compliance (ops.child n r s) in
      (child_answer a, s')
  from_node n (next_op r) s =
      let (a, s') = replied_next ops json network address compliance (ops.next n r s) in
      (next_answer a, s')
  from_node n (field_op r) s = let (a, s') = ops.field n r s in (field_answer a, s')

  -- What the node of an edit answers, by itself.
  pub from_edit : EditNode Node → Op → St → Answer Node × St
  from_edit e (child_op r) s =
      let (a, s') =
        replied ops json network address compliance
          (edit_child ops json network address compliance e r s) in
      (child_answer a, s')
  from_edit e (next_op r) s =
      let (a, s') =
        replied_next ops json network address compliance (ops.extended_next e.base r s) in
      (next_answer a, s')
  from_edit e (field_op r) s = let (a, s') = ops.extended_field e.base r s in (field_answer a, s')

  pub all_from : (Op → St → Answer Node × St) → List Op → St → List (Answer Node) × St
  all_from serve [] s = ([], s)
  all_from serve (o ∷ os) s =
      let (a, s') = serve o s in let (as', s'') = all_from serve os s' in (a ∷ as', s'')

  abbrev pub error_of : Result (Option Node) → Option Error
  error_of (err e) = some e
  error_of (ok _) = none
