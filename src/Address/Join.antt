-- ===== src/Address/Join.antt =====
-- appendUrlSegment: joining with exactly one slash.
use restconf.Prelude.{
  ℕ, ◌≡◌, refl, sym, ap, ◌∙◌, ◌≢◌, [], ◌∷◌, ◌++◌, arith, ◌==◌, if◌then◌else◌, append_assoc,
  append-nil,
}
use restconf.Text.{Bytes, is_empty}
use restconf.Address.{ends_in, append_url_segment}

pub ends_in-append :
    (a : Bytes) (y : ℕ) (b : Bytes) (c : ℕ) → ends_in (a ++ y ∷ b) c ≡ ends_in (y ∷ b) c
unfolding ends_in
ends_in-append [] y b c = refl
ends_in-append (x ∷ []) y b c = refl
ends_in-append (x ∷ z ∷ a) y b c = ends_in-append (z ∷ a) y b c

-- `a` without the slash that it ends in, if it ends in one.
abbrev pub without_last_slash : Bytes → Bytes
without_last_slash [] = []
without_last_slash (x ∷ []) = if x == b'/' then [] else x ∷ []
without_last_slash (x ∷ y ∷ a) = x ∷ without_last_slash (y ∷ a)

abbrev pub without_first_slash : Bytes → Bytes
without_first_slash [] = []
without_first_slash (x ∷ b) = if x == b'/' then b else x ∷ b

without_last_slash_lem :
    (a t : Bytes)
    → a ≢ []
    → (if ends_in a b'/' then a ++ t else a ++ b'/' ∷ t) ≡ without_last_slash a ++ b'/' ∷ t
unfolding ends_in
without_last_slash_lem [] t h = absurd (h refl)
without_last_slash_lem (x ∷ []) t h = ground arith
without_last_slash_lem (x ∷ y ∷ a) t h = ground (arith, without_last_slash_lem (y ∷ a) t)

-- Two segments that are not empty are joined by one slash in place of the one that ends the first,
-- if there is one, and the one that starts the second, if there is one.
append_url_segment_lem :
    (a b : Bytes)
    → a ≢ []
    → b ≢ []
    → append_url_segment a b ≡ without_last_slash a ++ b'/' ∷ without_first_slash b
unfolding append_url_segment is_empty
append_url_segment_lem [] b h k = absurd (h refl)
append_url_segment_lem (x ∷ a) [] h k = absurd (k refl)
append_url_segment_lem (x ∷ a) (y ∷ b) h k =
    ground (arith, without_last_slash_lem (x ∷ a) b, without_last_slash_lem (x ∷ a) (y ∷ b))

append_url_segment-nil : (s : Bytes) → append_url_segment s [] ≡ s
unfolding append_url_segment is_empty
append_url_segment-nil [] = refl
append_url_segment-nil (x ∷ s) = append-nil (x ∷ s)

-- The three segments, none of them empty.
assoc_full :
    (a b c : Bytes) (x y z : ℕ)
    → append_url_segment (append_url_segment (x ∷ a) (y ∷ b)) (z ∷ c)
      ≡ append_url_segment (x ∷ a) (append_url_segment (y ∷ b) (z ∷ c))
unfolding append_url_segment is_empty
assoc_full a [] c x y z = ground (
  arith,
  append-nil a,
  ends_in-append (x ∷ a) y [] b'/',
  ends_in-append (x ∷ a) b'/' (y ∷ []) b'/',
  append_assoc a (y ∷ []) (z ∷ c),
  append_assoc a (y ∷ []) (b'/' ∷ z ∷ c),
  append_assoc a (y ∷ []) c,
  append_assoc a (b'/' ∷ y ∷ []) (z ∷ c),
  append_assoc a (b'/' ∷ y ∷ []) (b'/' ∷ z ∷ c),
  append_assoc a (b'/' ∷ y ∷ []) c,
)
assoc_full a (w ∷ b) c x y z = ground (
  arith,
  ends_in-append (x ∷ a) y (w ∷ b) b'/',
  ends_in-append (x ∷ a) b'/' (y ∷ w ∷ b) b'/',
  ends_in-append (x ∷ a) w b b'/',
  append_assoc a (y ∷ w ∷ b) (z ∷ c),
  append_assoc a (y ∷ w ∷ b) (b'/' ∷ z ∷ c),
  append_assoc a (y ∷ w ∷ b) c,
  append_assoc a (w ∷ b) (z ∷ c),
  append_assoc a (w ∷ b) (b'/' ∷ z ∷ c),
  append_assoc a (w ∷ b) c,
  append_assoc a (b'/' ∷ y ∷ w ∷ b) (z ∷ c),
  append_assoc a (b'/' ∷ y ∷ w ∷ b) (b'/' ∷ z ∷ c),
  append_assoc a (b'/' ∷ y ∷ w ∷ b) c,
)

-- Joining is associative: a path can be built from its segments in any grouping.
append_url_segment_assoc :
    (a b c : Bytes)
    → append_url_segment (append_url_segment a b) c ≡ append_url_segment a (append_url_segment b c)
unfolding append_url_segment is_empty
append_url_segment_assoc [] b c = refl
append_url_segment_assoc (x ∷ a) [] c =
    ap (λ (s : Bytes). append_url_segment (x ∷ s) c) (append-nil a)
append_url_segment_assoc (x ∷ a) (y ∷ b) [] =
    append_url_segment-nil (append_url_segment (x ∷ a) (y ∷ b))
    ∙ ap (append_url_segment (x ∷ a)) (sym (append_url_segment-nil (y ∷ b)))
append_url_segment_assoc (x ∷ a) (y ∷ b) (z ∷ c) = assoc_full a b c x y z
