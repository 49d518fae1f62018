-- ===== src/Url/Shift.antt =====
-- What one shift takes off a path, and what it leaves: the index arithmetic of util.go against a
-- reference that reads the path byte by byte.
use restconf.Prelude.{
  ℕ, suc, ◌+◌, ◌<◌, ◌≤◌, ◌≡◌, refl, ap, ◌∙◌, ◌≢◌, inl, inr, Option, none, some, [], ◌∷◌, ◌++◌,
  arith, ◌==◌, if◌then◌else◌, Bool-cases, Option-cases, length, take, take-append, drop-append_suc,
  guarded_drop,
}
use native.Mathlib.Numerals.{add-one}
use restconf.Text.{Bytes, index_byte}
use restconf.Text.Laws.{Lacks, missing, at, index_byte-Found}
use restconf.Url.{
  skip_delim, cut, shift_in_string, cut_optional, shift_optional_param_within_segment_in_string,
}

-- `s` up to the first `d`, and what is behind that `d`.
abbrev pub before : ℕ → Bytes → Bytes
before d [] = []
before d (x ∷ s) = if x == d then [] else x ∷ before d s

abbrev pub after : ℕ → Bytes → Bytes
after d [] = []
after d (x ∷ s) = if x == d then s else after d s

-- `s` without the `d` that it starts with, if it starts with one.
abbrev pub without_leading : ℕ → Bytes → Bytes
without_leading d [] = []
without_leading d (x ∷ s) = if x == d then s else x ∷ s

before_of_Lacks : (d : ℕ) (s : Bytes) → Lacks d s → (before d s ≡ s) × (after d s ≡ [])
before_of_Lacks d [] h = (refl, refl)
before_of_Lacks d (x ∷ s) h = let ih = before_of_Lacks d s h.1 in (ground arith, ground arith)

pub before-append :
    (d : ℕ) (a b : Bytes) → Lacks d a → (before d (a ++ d ∷ b) ≡ a) × (after d (a ++ d ∷ b) ≡ b)
before-append d [] b h = (ground arith, ground arith)
before-append d (x ∷ a) b h = let ih = before-append d a b h.1 in (ground arith, ground arith)

Lacks-before : (d : ℕ) (s : Bytes) → Lacks d (before d s)
Lacks-before d [] = tt
Lacks-before d (x ∷ s) = ground (arith, Lacks-before d s)

cut-before : (s : Bytes) (d : ℕ) → cut s (index_byte s d) ≡ (before d s, after d s)
unfolding cut
cut-before s d = elim (index_byte-Found s d) [
  | missing l e ↦ let (b, a) = before_of_Lacks d s l in rw (e, b, a)
  | at a b e l i ↦ rw (
    i,
    e,
    (before-append d a b l).0,
    (before-append d a b l).1,
    take-append a (d ∷ b),
    drop-append_suc a d b,
  )
]

skip_delim-without_leading :
    (s : Bytes) (d : ℕ) → skip_delim s (index_byte s d) ≡ without_leading d s
unfolding skip_delim index_byte
skip_delim-without_leading [] d = refl
skip_delim-without_leading (x ∷ s) d = elim (Bool-cases (x == d)) [
  | inl same ↦ rw same
  | inr other ↦ rw other (elim (Option-cases (index_byte s d)) [ inl e ↦ rw e | inr (i, e) ↦ rw e ])
]

-- shiftInString is the reference that ignores one leading delimiter, reads up to the next one, and
-- returns what it read and what is behind that delimiter.
pub shift_in_string_lem :
    (s : Bytes) (d : ℕ)
    → shift_in_string s d ≡ (before d (without_leading d s), after d (without_leading d s))
unfolding shift_in_string
shift_in_string_lem s d = rw (skip_delim-without_leading s d) (cut-before (without_leading d s) d)

cut_optional-cut : (s : Bytes) (o : Option ℕ) → cut_optional s o ≡ cut s o
unfolding cut_optional cut
cut_optional-cut s none = refl
cut_optional-cut s (some n) = ap (λ r. (take n s, r)) (guarded_drop (n + 1) s ∙ rw add-one)

-- Splitting off a segment with an optional parameter is a plain shift, whose segment is then read
-- up to the parameter's delimiter; the parameter is all that follows it in the segment.
pub shift_optional_param_within_segment_in_string_lem :
    (s : Bytes) (o d : ℕ)
    → shift_optional_param_within_segment_in_string s o d
      ≡ (before o (shift_in_string s d).0, after o (shift_in_string s d).0, (shift_in_string s d).1)
unfolding shift_optional_param_within_segment_in_string shift_in_string
shift_optional_param_within_segment_in_string_lem s o d =
    let segment = (shift_in_string s d).0 in
    ap (λ (p : Bytes × Bytes). (p.0, p.1, (shift_in_string s d).1))
      (cut_optional-cut segment _ ∙ cut-before segment o)

length-after : (d x : ℕ) (s : Bytes) → length (after d (x ∷ s)) < suc (length s)
length-after d x [] = ground arith
length-after d x (y ∷ s) = ground (arith, length-after d y s)

length-after_le : (d : ℕ) (s : Bytes) → length (after d s) ≤ length s
length-after_le d [] = omega arith
length-after_le d (x ∷ s) = ground (arith, length-after_le d s)

-- A shift makes progress: of a path that is not empty it leaves a shorter one.
shift_in_string_shorter : (s : Bytes) (d : ℕ) → s ≢ [] → length (shift_in_string s d).1 < length s
shift_in_string_shorter [] d h = absurd (h refl)
shift_in_string_shorter (x ∷ s) d h =
    rw (shift_in_string_lem (x ∷ s) d) (ground (arith, length-after d x s, length-after_le d s))

-- The segment holds no delimiter.
Lacks-shift_in_string : (s : Bytes) (d : ℕ) → Lacks d (shift_in_string s d).0
Lacks-shift_in_string s d = rw (shift_in_string_lem s d) (Lacks-before d (without_leading d s))
