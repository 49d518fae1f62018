-- ===== src/Form.antt =====
-- form.go: the node over a request that uploads files in a form.
pub mod Files
use restconf.Prelude.{
  ℕ, zero, suc, Bool, true, false, Option, none, some, List, [], ◌∷◌, get_elem?, if◌then◌else◌,
}
use restconf.Text.{Bytes, codes, is_empty}
use restconf.Errors.{Error, new, Result, ok, err}
use restconf.Maps.{find}

-- multipart.FileHeader, with what its Open gives
pub record FileHeader : Type 0 where
  pub filename : Bytes
  pub content : Result Bytes

-- What ParseMultipartForm leaves in a request: MultipartForm.File, and FormValue.
pub record Form : Type 0 where
  pub file : List (Bytes × List FileHeader)
  pub form_value : Bytes → Bytes

-- formFile, with what can be read of it
pub record FormFile : Type 0 where
  pub rdr : Bytes
  pub name : Bytes

-- A value of a field: one that node.NewValue makes of a text, or a file as an any.
pub data FormVal (Val : Type 0) : Type 0 where
  value : Val → FormVal Val
  any : FormFile → FormVal Val

-- The nodes of form.go, by what they hold.
pub data FormNode : Type 0 where
  form : Form → FormNode
  form_list : List FileHeader → FormNode

-- formNode, for ParseMultipartForm's answer
unfoldable pub form_node : Result Form → Result FormNode
form_node (err e) = err e
form_node (ok f) = ok (form f)

child_of : Option (List FileHeader) → (is_list : Bool) → Result (Option FormNode)
child_of none is_list = ok none
child_of (some []) is_list = ok none
child_of (some (f ∷ fs)) true = ok (some (form_list (f ∷ fs)))
child_of (some (f ∷ [])) false = ok none
child_of (some (f ∷ g ∷ fs)) false =
    err (new (codes "invalid number of form files for structure, expected 0 or 1"))

-- OnChild of formNode
unfoldable pub form_child : Form → (ident : Bytes) → (is_list : Bool) → Result (Option FormNode)
unfolding child_of
form_child f ident is_list = child_of (find f.file ident) is_list

module _ {Val : Type 0} where
  opened : Bytes → Result Bytes → Result (Option (FormVal Val))
  opened filename (err e) = err e
  opened filename (ok content) = ok (some (any (record { rdr = content; name = filename })))

  file_field : Option (List FileHeader) → Result (Option (FormVal Val))
  unfolding opened
  file_field none = ok none
  file_field (some []) = ok none
  file_field (some (f ∷ [])) = opened f.filename f.content
  file_field (some (f ∷ g ∷ fs)) =
      err (new (codes "invalid number of form files for field, expected 0 or 1"))

  text_field : Result Val → Result (Option (FormVal Val))
  text_field (err e) = err e
  text_field (ok v) = ok (some (value v))

  -- OnField of formNode; `new_value` is node.NewValue at the field's type
  unfoldable pub form_field :
      (new_value : Bytes → Result Val) → Form → (ident : Bytes) → Result (Option (FormVal Val))
  unfolding file_field text_field
  form_field new_value f ident =
      let sval = f.form_value ident in
      if is_empty sval then file_field (find f.file ident) else text_field (new_value sval)

module _ {Node : Type 0} (read_json_io : Bytes → Result Node) where
  read_file : Result Bytes → Result Node
  read_file (err e) = err e
  read_file (ok content) = read_json_io content

  unfoldable pub form_child_node : FileHeader → Result Node
  unfolding read_file
  form_child_node f = read_file f.content

  some_node : Result Node → Result (Option Node)
  some_node (err e) = err e
  some_node (ok n) = ok (some n)

  row_of : Option FileHeader → Result (Option Node)
  unfolding form_child_node some_node
  row_of none = ok none
  row_of (some f) = some_node (form_child_node f)

  -- OnNext of formListNode
  unfoldable pub form_list_next : List FileHeader → (row : ℕ) → Result (Option Node)
  unfolding row_of
  form_list_next files row = row_of (get_elem? files row)
