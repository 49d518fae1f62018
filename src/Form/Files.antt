-- ===== src/Form/Files.antt =====
-- What an application gets of uploaded files (form.go).
use restconf.Prelude.{ℕ, zero, suc, false, Option, none, some, List, [], ◌∷◌, ◌≡◌, refl}
use restconf.Text.{Bytes, is_empty}
use restconf.Errors.{Error, Result, ok, err}
use restconf.Maps.{find}
use restconf.Form.{FileHeader, Form, any, form_child, form_field, form_child_node}

module _ {Node : Type 0} where
  collected :
      Result (Option Node) → Option (List Node × Option Error) → Option (List Node × Option Error)
  collected (err e) rest = some ([], some e)
  collected (ok none) rest = some ([], none)
  collected (ok (some n)) none = none
  collected (ok (some n)) (some (ns, e)) = some (n ∷ ns, e)

  -- What a reader gets who asks for one row after the other until there is none, or an error: the nodes
  -- and the error; nothing if the fuel is used up.
  pub rows : (ℕ → Result (Option Node)) → ℕ → ℕ → Option (List Node × Option Error)
  unfolding collected
  rows next zero row = none
  rows next (suc fuel) row = let rest = rows next fuel (suc row) in collected (next row) rest

  with_first : Result Node → List Node × Option Error → List Node × Option Error
  with_first (err e) rest = ([], some e)
  with_first (ok n) (ns, e) = (n ∷ ns, e)

  -- The contents of the files up to the first that cannot be opened or read.
  pub contents : (Bytes → Result Node) → List FileHeader → List Node × Option Error
  unfolding with_first
  contents read_json_io [] = ([], none)
  contents read_json_io (f ∷ fs) =
      with_first (form_child_node read_json_io f) (contents read_json_io fs)

-- One file that is uploaded for a container is found, and never read: the container is not there. For
-- a field the same file is its value, with its name and content.
form_child_ignored :
    {Val : Type 0} (new_value : Bytes → Result Val) (f : Form) (ident content : Bytes)
    (file : FileHeader)
    → find f.file ident ≡ some (file ∷ [])
    → file.content ≡ ok content
    → f.form_value ident ≡ []
    → (form_child f ident false ≡ ok none)
      × (form_field new_value f ident
          ≡ ok (some (any (record { rdr = content; name = file.filename }))))
unfolding form_child form_field is_empty
form_child_ignored new_value f ident content file found opens no_text =
    (rw found refl, rw (no_text, found, opens) refl)
