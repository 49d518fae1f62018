-- ===== src/Tests/Paths.antt =====
-- The shifts of util.go at concrete paths.
use restconf.Prelude.{◌≡◌, refl, inr, [], arith}
use restconf.Text.{codes}
use restconf.Url.{Url, shift, shift_in_string, shift_optional_param_within_segment_in_string}
use restconf.Url.Shift.{
  before, after, without_leading, shift_in_string_lem,
  shift_optional_param_within_segment_in_string_lem,
}
use restconf.Url.Encoded.{Encodes, nil, literal, escaped, IsDelimiter, IsInStep, shift-IsInStep}

shift_in_string_lem_example : shift_in_string (codes "/a/b/c") b'/' ≡ (
  before b'/' (without_leading b'/' (codes "/a/b/c")),
  after b'/' (without_leading b'/' (codes "/a/b/c")),
)
shift_in_string_lem_example = shift_in_string_lem (codes "/a/b/c") b'/'

shift_optional_param_within_segment_in_string_lem_example :
    shift_optional_param_within_segment_in_string (codes "/restconf=dev/data") b'=' b'/' ≡ (
      before b'=' (shift_in_string (codes "/restconf=dev/data") b'/').0,
      after b'=' (shift_in_string (codes "/restconf=dev/data") b'/').0,
      (shift_in_string (codes "/restconf=dev/data") b'/').1,
    )
shift_optional_param_within_segment_in_string_lem_example =
    shift_optional_param_within_segment_in_string_lem (codes "/restconf=dev/data") b'=' b'/'

-- "/a%20b/c" for "/a b/c"
abbrev spaced : Url
spaced = record { path = codes "/a b/c"; raw_path = codes "/a%20b/c"; raw_query = [] }

slash-IsDelimiter : IsDelimiter b'/'
slash-IsDelimiter = record { not_percent = omega arith; not_hex = refl }

spaced-Encodes : Encodes b'/' (codes "/a%20b/c") (codes "/a b/c")
spaced-Encodes = literal (omega arith) (
    literal (omega arith) (
      escaped 2 0 refl refl refl refl (omega arith)
        (literal (omega arith) (literal (omega arith) (literal (omega arith) nil)))))

shift-IsInStep_example : IsInStep slash-IsDelimiter (shift spaced b'/').1
shift-IsInStep_example = shift-IsInStep slash-IsDelimiter spaced (inr spaced-Encodes)
