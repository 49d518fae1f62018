-- ===== src/Url/Segments.antt =====
-- The segments of a path that is put together from them.
use restconf.Prelude.{ℕ, ◌≡◌, refl, ap, ◌∙◌, ◌≢◌, inl, inr, [], ◌∷◌, ◌++◌, arith, Bool-cases}
use restconf.Text.{Bytes, is_empty}
use restconf.Text.Laws.{Lacks, is_empty_iff}
use restconf.Url.{
  Url, shift, shift_in_string, shift_optional_param_within_segment,
  shift_optional_param_within_segment_in_string,
}
use restconf.Url.Shift.{
  without_leading, before-append, shift_in_string_lem,
  shift_optional_param_within_segment_in_string_lem,
}

without_leading-cons : (d : ℕ) (s : Bytes) → without_leading d (d ∷ s) ≡ s
without_leading-cons d s = ground arith

-- A segment between two delimiters.
shift_in_string-cons :
    (d : ℕ) (a b : Bytes) → Lacks d a → shift_in_string (d ∷ (a ++ d ∷ b)) d ≡ (a, b)
shift_in_string-cons d a b h =
    let (e, f) = before-append d a b h in
    rw (shift_in_string_lem (d ∷ (a ++ d ∷ b)) d, without_leading-cons d (a ++ d ∷ b), e, f) refl

-- A segment that the path starts with.
pub shift_in_string-append :
    (d : ℕ) (a b : Bytes) → a ≢ [] → Lacks d a → shift_in_string (a ++ d ∷ b) d ≡ (a, b)
shift_in_string-append d [] b ne h = absurd (ne refl)
shift_in_string-append d (x ∷ a) b ne h =
    let (e, f) = before-append d (x ∷ a) b h in
    let same : without_leading d ((x ∷ a) ++ d ∷ b) ≡ (x ∷ a) ++ d ∷ b = ground arith in
    rw (shift_in_string_lem ((x ∷ a) ++ d ∷ b) d, same, e, f) refl

pub shift-path :
    (u : Url) (d : ℕ) (a b : Bytes)
    → u.path ≢ []
    → shift_in_string u.path d ≡ (a, b)
    → ((shift u d).0 ≡ a) × ((shift u d).1.path ≡ b)
unfolding shift is_empty
shift-path u d a b ne e = elim (Bool-cases (is_empty u.path)) [
  | inl t ↦ absurd (ne ((is_empty_iff u.path).0 t))
  | inr t ↦ rw t (ap (λ (x : Bytes × Bytes). x.0) e, ap (λ (x : Bytes × Bytes). x.1) e)
]

pub shift_optional-path :
    (u : Url) (o d : ℕ) (name value rest : Bytes)
    → u.path ≡ d ∷ ((name ++ o ∷ value) ++ d ∷ rest)
    → Lacks o name
    → Lacks d (name ++ o ∷ value)
    → ((shift_optional_param_within_segment u o d).0 ≡ name)
      × (((shift_optional_param_within_segment u o d).1 ≡ value)
          × ((shift_optional_param_within_segment u o d).2.path ≡ rest))
unfolding shift_optional_param_within_segment
shift_optional-path u o d name value rest e h k =
    let segment = name ++ o ∷ value in
    let (x, y) = before-append o name value h in
    let split : shift_optional_param_within_segment_in_string u.path o d ≡ (name, value, rest) =
      ap (λ (p : Bytes). shift_optional_param_within_segment_in_string p o d) e
      ∙ shift_optional_param_within_segment_in_string_lem (d ∷ (segment ++ d ∷ rest)) o d
      ∙ rw (shift_in_string-cons d segment rest k, x, y) refl in
    (
      ap (λ (x : Bytes × Bytes × Bytes). x.0) split,
      (
        ap (λ (x : Bytes × Bytes × Bytes). x.1) split,
        ap (λ (x : Bytes × Bytes × Bytes). x.2) split,
      ),
    )
