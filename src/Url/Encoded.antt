-- ===== src/Url/Encoded.antt =====
-- The decoded and the encoded path of a URL stay in step under the shifts, as long as no escape
-- stands for a delimiter (the note at shiftOptionalParamWithinSegmentInString of util.go).
use restconf.Prelude.{
  ℕ, ◌+◌, ◌≡◌, sym, ap, ◌∙◌, ◌≢◌, ◌⊎◌, inl, inr, false, Option, none, some, [], ◌∷◌, arith, ◌==◌,
  if◌then◌else◌, Bool-cases, ◌&&◌, leb, ◌-◌, ◌*◌,
}
use restconf.Text.{Bytes, is_empty}
use restconf.Url.{Url, shift_in_string, shift, shift_optional_param_within_segment}
use restconf.Url.Shift.{
  before, after, without_leading, shift_in_string_lem,
  shift_optional_param_within_segment_in_string_lem,
}

-- The value of a hexadecimal digit.
abbrev pub unhex : ℕ → Option ℕ
unhex c =
    if leb b'0' c && leb c b'9'
    then some (c - b'0')
    else if leb b'a' c && leb c b'f'
    then some (c - b'a' + 10)
    else if leb b'A' c && leb c b'F'
    then some (c - b'A' + 10)
    else none

-- `raw` decodes to `path`, and no escape in it stands for the delimiter `d`.
pub data Encodes (d : ℕ) : (raw path : Bytes) → Type 0 where
  nil : Encodes d [] []
  literal :
      {c : ℕ} {raw path : Bytes} → c ≢ b'%' → Encodes d raw path → Encodes d (c ∷ raw) (c ∷ path)
  escaped :
      {x h l c : ℕ} {raw path : Bytes} (a b : ℕ)
      → x ≡ b'%'
      → unhex h ≡ some a
      → unhex l ≡ some b
      → c ≡ a * 16 + b
      → c ≢ d
      → Encodes d raw path
      → Encodes d (x ∷ h ∷ l ∷ raw) (c ∷ path)

-- A delimiter that no escape contains.
pub record IsDelimiter (d : ℕ) : Type 0 where
  pub not_percent : d ≢ b'%'
  pub not_hex : unhex d ≡ none

ne_test : (x d : ℕ) → x ≢ d → (x == d) ≡ false
ne_test x d h = ground arith

hex-ne : (h d a : ℕ) → unhex h ≡ some a → unhex d ≡ none → h ≢ d
hex-ne h d a p q e = cc (ap unhex e)

module _ {d : ℕ} (plain : IsDelimiter d) where
  Encodes-before :
      {raw path : Bytes} → Encodes d raw path → Encodes d (before d raw) (before d path)
  Encodes-before nil = nil
  Encodes-before (literal {c} {raw} {path} h e) = elim (Bool-cases (c == d)) [
    | inl same ↦ rw same nil
    | inr other ↦ rw other (literal h (Encodes-before e))
  ]
  Encodes-before (escaped {x} {h} {l} {c} a b p q r s t e) =
      rw
        (
          ne_test x d (λ e. plain.not_percent (sym e ∙ p)),
          ne_test h d (hex-ne h d a q plain.not_hex),
          ne_test l d (hex-ne l d b r plain.not_hex),
          ne_test c d t,
        )
        (escaped a b p q r s t (Encodes-before e))

  Encodes-after : {raw path : Bytes} → Encodes d raw path → Encodes d (after d raw) (after d path)
  Encodes-after nil = nil
  Encodes-after (literal {c} {raw} {path} h e) = elim (Bool-cases (c == d)) [
    | inl same ↦ rw same e
    | inr other ↦ rw other (Encodes-after e)
  ]
  Encodes-after (escaped {x} {h} {l} {c} a b p q r s t e) =
      rw
        (
          ne_test x d (λ e. plain.not_percent (sym e ∙ p)),
          ne_test h d (hex-ne h d a q plain.not_hex),
          ne_test l d (hex-ne l d b r plain.not_hex),
          ne_test c d t,
        )
        (Encodes-after e)

  Encodes-without_leading :
      {raw path : Bytes}
      → Encodes d raw path
      → Encodes d (without_leading d raw) (without_leading d path)
  Encodes-without_leading nil = nil
  Encodes-without_leading (literal {c} {raw} {path} h e) = elim (Bool-cases (c == d)) [
    | inl same ↦ rw same e
    | inr other ↦ rw other (literal h e)
  ]
  Encodes-without_leading (escaped {x} {h} {l} {c} a b p q r s t e) =
      rw (ne_test x d (λ e. plain.not_percent (sym e ∙ p)), ne_test c d t) (escaped a b p q r s t e)

  -- The encoded path is left out, or decodes to the path with no escaped delimiter.
  abbrev pub IsInStep : Url → Type 0
  IsInStep u = (u.raw_path ≡ []) ⊎ Encodes d u.raw_path u.path

  Encodes-shift_in_string :
      {raw path : Bytes}
      → Encodes d raw path
      → Encodes d (shift_in_string raw d).1 (shift_in_string path d).1
  Encodes-shift_in_string {raw} {path} e =
      rw (shift_in_string_lem raw d, shift_in_string_lem path d)
        (Encodes-after (Encodes-without_leading e))

  shift_in_string-nil : (raw : Bytes) → raw ≡ [] → (shift_in_string raw d).1 ≡ []
  shift_in_string-nil raw e = rw (shift_in_string_lem raw d, e)

  -- A shift by a delimiter that no escape contains keeps the two paths in step: if the encoded
  -- path is left out, or decodes to the path with no escape for the delimiter, the shifted ones
  -- are so too.
  pub shift-IsInStep : (u : Url) → IsInStep u → IsInStep (shift u d).1
  unfolding shift
  shift-IsInStep u h = elim (Bool-cases (is_empty u.path)) [
    | inl empty ↦ rw empty h
    | inr more ↦ rw more (elim h [
      | inl e ↦ inl (shift_in_string-nil u.raw_path e)
      | inr e ↦ inr (Encodes-shift_in_string e)
    ])
  ]

  -- So does a shift that looks for an optional parameter, whatever its delimiter is.
  shift_optional_param_within_segment-IsInStep :
      (u : Url) (o : ℕ) → IsInStep u → IsInStep (shift_optional_param_within_segment u o d).2
  unfolding shift_optional_param_within_segment
  shift_optional_param_within_segment-IsInStep u o h =
      rw
        (
          shift_optional_param_within_segment_in_string_lem u.path o d,
          shift_optional_param_within_segment_in_string_lem u.raw_path o d,
        )
        (elim h [
          | inl e ↦ inl (shift_in_string-nil u.raw_path e)
          | inr e ↦ inr (Encodes-shift_in_string e)
        ])
