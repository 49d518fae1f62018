-- ===== src/Url.antt =====
-- util.go: taking the segments of a URL's path off its front. `Path` is the decoded path, and
-- `RawPath` the encoded one, or empty where it would say the same.
pub mod Shift
pub mod Segments
pub mod Encoded
use restconf.Prelude.{
  ℕ, zero, suc, ◌+◌, Option, none, some, [], ltb, if◌then◌else◌, length, take, drop,
}
use restconf.Text.{Bytes, is_empty, index_byte}

-- net/url.URL, as far as the program looks into it
pub record Url : Type 0 where
  pub path : Bytes
  pub raw_path : Bytes
  pub raw_query : Bytes

-- a path that starts with the delimiter: ignore it
skip_delim : Bytes → Option ℕ → Bytes
skip_delim orig (some zero) = drop 1 orig
skip_delim orig _ = orig

-- the segment, and what is behind it
cut : Bytes → Option ℕ → Bytes × Bytes
cut s none = (s, [])
cut s (some term_pos) = (take term_pos s, drop (suc term_pos) s)

unfoldable pub shift_in_string : Bytes → ℕ → Bytes × Bytes
unfolding skip_delim cut
shift_in_string orig delim =
    let s = skip_delim orig (index_byte orig delim) in cut s (index_byte s delim)

unfoldable pub shift : Url → ℕ → Bytes × Url
shift orig delim =
    if is_empty orig.path
    then ([], orig)
    else let (segment, path) = shift_in_string orig.path delim in
      let (_, raw_path) = shift_in_string orig.raw_path delim in
      (segment, record orig { path = path; raw_path = raw_path })

-- `segment` with the optional parameter looked for in it
cut_optional : Bytes → Option ℕ → Bytes × Bytes
cut_optional segment none = (segment, [])
cut_optional segment (some opt_pos) = (
  take opt_pos segment,
  if ltb (opt_pos + 1) (length segment) then drop (opt_pos + 1) segment else [],
)

unfoldable pub shift_optional_param_within_segment_in_string : Bytes → ℕ → ℕ → Bytes × Bytes × Bytes
unfolding skip_delim cut cut_optional
shift_optional_param_within_segment_in_string orig optional_delim seg_delim =
    let s = skip_delim orig (index_byte orig seg_delim) in
    let (segment, shifted) = cut s (index_byte s seg_delim) in
    let (name, optional) = cut_optional segment (index_byte segment optional_delim) in
    (name, optional, shifted)

unfoldable pub shift_optional_param_within_segment : Url → ℕ → ℕ → Bytes × Bytes × Url
shift_optional_param_within_segment orig optional_delim seg_delim =
    let (segment, optional, path) =
      shift_optional_param_within_segment_in_string orig.path optional_delim seg_delim in
    let (_, _, raw_path) =
      shift_optional_param_within_segment_in_string orig.raw_path optional_delim seg_delim in
    (segment, optional, record orig { path = path; raw_path = raw_path })
