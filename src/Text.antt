-- ===== src/Text.antt =====
-- Go strings as byte sequences, and what the program uses of Go's package `strings`. A position is
-- an `Option`: `none` is Go's -1.
pub mod Laws
use mathlib.Core.Option
use mathlib.Core.List.{reverse}
use restconf.Prelude.{
  ℕ, zero, suc, ◌-◌, code, String, Bool, true, false, ◌&&◌, ◌||◌, Option, none, some, List, [], ◌∷◌,
  ◌++◌, ltb, leb, ◌==◌, if◌then◌else◌, length, drop,
}

abbrev pub Bytes : Type 0
Bytes = List ℕ

-- The bytes of an ASCII literal.
abbrev pub codes : String → Bytes
codes String.[] = []
codes (String.◌∷◌ c s) = code c ∷ codes s

-- a == b
unfoldable pub beq : Bytes → Bytes → Bool
beq [] [] = true
beq (x ∷ a) (y ∷ b) = x == y && beq a b
beq _ _ = false

-- s == ""
unfoldable pub is_empty : Bytes → Bool
is_empty [] = true
is_empty (_ ∷ _) = false

-- strings.IndexRune(s, c), at a rune that is one byte
unfoldable pub index_byte : Bytes → ℕ → Option ℕ
index_byte [] c = none
index_byte (x ∷ s) c = if x == c then some 0 else Option.map suc (index_byte s c)

later_index : Bool → Option ℕ → Option ℕ
later_index here (some i) = some (suc i)
later_index here none = if here then some 0 else none

-- strings.LastIndex(s, t), at a text t of one byte
unfoldable pub last_index_byte : Bytes → ℕ → Option ℕ
unfolding later_index
last_index_byte [] c = none
last_index_byte (x ∷ s) c = later_index (x == c) (last_index_byte s c)

-- strings.HasPrefix(s, prefix)
unfoldable pub has_prefix : Bytes → Bytes → Bool
has_prefix s [] = true
has_prefix [] (y ∷ p) = false
has_prefix (x ∷ s) (y ∷ p) = x == y && has_prefix s p

-- strings.HasSuffix(s, suffix)
unfoldable pub has_suffix : Bytes → Bytes → Bool
unfolding beq
has_suffix s p = leb (length p) (length s) && beq (drop (length s - length p) s) p

-- strings.Index(s, sep)
unfoldable pub index : Bytes → Bytes → Option ℕ
unfolding has_prefix
index [] sep = if has_prefix [] sep then some 0 else none
index (x ∷ s) sep = if has_prefix (x ∷ s) sep then some 0 else Option.map suc (index s sep)

-- strings.Contains(s, sep)
unfoldable pub contains : Bytes → Bytes → Bool
unfolding index
contains s sep = elim (index s sep) [ some _ ↦ true | none ↦ false ]
