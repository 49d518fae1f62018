-- ===== src/Text/Laws.antt =====
-- Laws of the byte searches: where an index points, and what stands before it.

use restconf.Prelude.{
  false, ◌≡◌, refl, ap, ◌≢◌, ◌↔◌, inl, inr, true, none, some, [], ◌∷◌, ◌++◌, arith, ◌==◌, ==_iff,
  Bool-cases, Option-cases, length, ℕ,
}
use restconf.Text.{Bytes, beq, is_empty, index_byte, last_index_byte, has_prefix, index}

pub beq_iff : (a b : Bytes) → (beq a b ≡ true) ↔ (a ≡ b)
unfolding beq
beq_iff (x ∷ a) (y ∷ b) = ground (arith, beq_iff a b)
beq_iff _ _ = ground arith

pub beq_self : (a : Bytes) → beq a a ≡ true
beq_self a = (beq_iff a a).1 refl

pub is_empty_iff : (a : Bytes) → (is_empty a ≡ true) ↔ (a ≡ [])
unfolding is_empty
is_empty_iff [] = ground arith
is_empty_iff (x ∷ a) = ground arith

-- The byte `c` does not occur.
abbrev pub Lacks : ℕ → Bytes → Type 0
Lacks c [] = Unit
Lacks c (x ∷ s) = (x ≢ c) × Lacks c s

pub Lacks-append : (c : ℕ) (a b : Bytes) → Lacks c a → Lacks c b → Lacks c (a ++ b)
Lacks-append c [] b h k = k
Lacks-append c (x ∷ a) b h k = (h.0, Lacks-append c a b h.1 k)

pub Lacks-of_append : (c : ℕ) (a b : Bytes) → Lacks c (a ++ b) → Lacks c a × Lacks c b
Lacks-of_append c [] b h = (tt, h)
Lacks-of_append c (x ∷ a) b h = let r = Lacks-of_append c a b h.1 in ((h.0, r.0), r.1)

pub index_byte_of_Lacks : (s : Bytes) (c : ℕ) → Lacks c s → index_byte s c ≡ none
unfolding index_byte
index_byte_of_Lacks [] c h = refl
index_byte_of_Lacks (x ∷ s) c h = ground (arith, index_byte_of_Lacks s c h.1)

pub index_byte-append :
    (a b : Bytes) (c : ℕ) → Lacks c a → index_byte (a ++ c ∷ b) c ≡ some (length a)
unfolding index_byte
index_byte-append [] b c h = ground arith
index_byte-append (x ∷ a) b c h = ground (arith, index_byte-append a b c h.1)

-- What an index says of a text: the byte does not occur, or the text splits at its first place.
pub data Found (s : Bytes) (c : ℕ) : Type 0 where
  missing : Lacks c s → index_byte s c ≡ none → Found s c
  at :
      (before after : Bytes)
      → s ≡ before ++ c ∷ after
      → Lacks c before
      → index_byte s c ≡ some (length before)
      → Found s c

pub index_byte-Found : (s : Bytes) (c : ℕ) → Found s c
unfolding index_byte
index_byte-Found [] c = missing tt refl
index_byte-Found (x ∷ s) c = elim (Bool-cases (x == c)) [
  | inl same ↦ at [] s (ap (λ y. y ∷ s) ((==_iff x c).0 same)) tt (rw same)
  | inr other ↦ elim (index_byte-Found s c) [
    | missing l e ↦ missing (ground arith, l) (ground arith)
    | at a b e l i ↦ at (x ∷ a) b (ap (◌∷◌ x) e) (ground arith, l) (ground arith)
  ]
]

pub last_index_byte_of_Lacks : (s : Bytes) (c : ℕ) → Lacks c s → last_index_byte s c ≡ none
unfolding last_index_byte
last_index_byte_of_Lacks [] c h = refl
last_index_byte_of_Lacks (x ∷ s) c h = ground (arith, last_index_byte_of_Lacks s c h.1)

pub last_index_byte-append :
    (a b : Bytes) (c : ℕ) → Lacks c b → last_index_byte (a ++ c ∷ b) c ≡ some (length a)
unfolding last_index_byte
last_index_byte-append [] b c h = ground (arith, last_index_byte_of_Lacks b c h)
last_index_byte-append (x ∷ a) b c h = ground (arith, last_index_byte-append a b c h)

pub data FoundLast (s : Bytes) (c : ℕ) : Type 0 where
  missing : Lacks c s → last_index_byte s c ≡ none → FoundLast s c
  at :
      (before after : Bytes)
      → s ≡ before ++ c ∷ after
      → Lacks c after
      → last_index_byte s c ≡ some (length before)
      → FoundLast s c

pub last_index_byte-FoundLast : (s : Bytes) (c : ℕ) → FoundLast s c
unfolding last_index_byte
last_index_byte-FoundLast [] c = FoundLast.missing tt refl
last_index_byte-FoundLast (x ∷ s) c = elim (last_index_byte-FoundLast s c) [
  | FoundLast.at a b e l i ↦ FoundLast.at (x ∷ a) b (ap (◌∷◌ x) e) l (ground arith)
  | FoundLast.missing l e ↦ elim (Bool-cases (x == c)) [
    | inl same ↦ FoundLast.at [] s (ap (λ y. y ∷ s) ((==_iff x c).0 same)) l (ground arith)
    | inr other ↦ FoundLast.missing (ground arith, l) (ground arith)
  ]
]

pub has_prefix-append : (p s : Bytes) → has_prefix (p ++ s) p ≡ true
unfolding has_prefix
has_prefix-append [] [] = refl
has_prefix-append [] (x ∷ s) = refl
has_prefix-append (x ∷ p) s = ground (arith, has_prefix-append p s)

-- A text with a prefix is that prefix and a rest.
has_prefix_sound : (s p : Bytes) → has_prefix s p ≡ true → (r : Bytes) × (s ≡ p ++ r)
unfolding has_prefix
has_prefix_sound s [] h = (s, refl)
has_prefix_sound [] (y ∷ p) h = cc
has_prefix_sound (x ∷ s) (y ∷ p) h =
    let (r, e) = has_prefix_sound s p (ground arith) in (r, ground arith)

-- Where strings.Index finds `sep`, the text is what stands before it, `sep` and a rest.
pub index_sound :
    (s sep : Bytes) (i : ℕ)
    → index s sep ≡ some i
    → (a b : Bytes) × (s ≡ a ++ (sep ++ b)) × (i ≡ length a)
unfolding index
index_sound [] [] i h = ([], [], refl, ground arith)
index_sound [] (y ∷ p) i h = cc
index_sound (x ∷ s) sep i h = elim (Bool-cases (has_prefix (x ∷ s) sep)) [
  | inl here ↦ let (r, e) = has_prefix_sound (x ∷ s) sep here in ([], r, e, ground arith)
  | inr later ↦ elim (Option-cases (index s sep)) [
    | inl e ↦ absurd (ground arith)
    | inr (j, e) ↦
        let (a, b, p, q) = index_sound s sep j e in (x ∷ a, b, ap (◌∷◌ x) p, ground arith)
  ]
]

pub beq_of_ne : (s t : Bytes) → s ≢ t → beq s t ≡ false
beq_of_ne s t h = elim (Bool-cases (beq s t)) [ inl e ↦ absurd (h ((beq_iff s t).0 e)) | inr e ↦ e ]

pub is_empty_of_ne : (a : Bytes) → a ≢ [] → is_empty a ≡ false
is_empty_of_ne a h = elim (Bool-cases (is_empty a)) [
  | inl e ↦ absurd (h ((is_empty_iff a).0 e))
  | inr e ↦ e
]

pub ne_of_beq : (a b : Bytes) → beq a b ≡ false → a ≢ b
ne_of_beq a b h q = absurd (cc (h, (beq_iff a b).1 q))
