-- ===== src/Maps.antt =====
-- Go maps with string keys, as association lists. The order of the entries stands for the order in
-- which a `range` meets them; a key that is new comes last.
pub mod Laws
use restconf.Prelude.{Bool, true, false, Option, none, some, List, [], ◌∷◌, if◌then◌else◌}
use restconf.Text.{Bytes, beq}

module _ {ℓ} {V : Type ℓ} where
  -- m[key]
  unfoldable pub find : List (Bytes × V) → Bytes → Option V
  find [] key = none
  find ((k, v) ∷ m) key = if beq k key then some v else find m key

  -- m[key] = value
  unfoldable pub store : List (Bytes × V) → Bytes → V → List (Bytes × V)
  store [] key value = (key, value) ∷ []
  store ((k, v) ∷ m) key value = if beq k key then (key, value) ∷ m else (k, v) ∷ store m key value

  -- delete(m, key)
  unfoldable pub delete : List (Bytes × V) → Bytes → List (Bytes × V)
  delete [] key = []
  delete ((k, v) ∷ m) key = let rest = delete m key in if beq k key then rest else (k, v) ∷ rest
