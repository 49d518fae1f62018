-- ===== src/Tests/Uploads.antt =====
-- A form with two files for a list, and one for a container.
use restconf.Prelude.{ℕ, [], ◌∷◌, length}
use restconf.Text.{Bytes, codes}
use restconf.Errors.{new, Result, ok, err}
use restconf.Form.{FileHeader, Form}

abbrev first_file : FileHeader
first_file = record { filename = codes "a.json"; content = ok (codes "{}") }

abbrev lost_file : FileHeader
lost_file = record { filename = codes "b.json"; content = err (new (codes "gone")) }

abbrev uploads : Form
uploads = record {
  file = (codes "cars", first_file ∷ lost_file ∷ []) ∷ (codes "car", first_file ∷ []) ∷ [];
  form_value = λ ident. [];
}

abbrev length_node : Bytes → Result ℕ
length_node content = ok (length content)
