-- ===== src/Address/Split.antt =====
-- SplitAddress, SplitUri and decodeErrorPath: the parts give the address back, and which addresses
-- are accepted.
use restconf.Prelude.{
  ◌≡◌, ◌∙◌, [], ◌∷◌, ◌++◌, arith, take-append, drop-append_suc, append_assoc, ◌↔◌,
}
use restconf.Text.{Bytes}
use restconf.Text.Laws.{
  Lacks, Lacks-append, Lacks-of_append, index_byte_of_Lacks, index_byte-append, missing, at,
  index_byte-Found, FoundLast, last_index_byte-append, last_index_byte_of_Lacks,
  last_index_byte-FoundLast,
}
use restconf.Errors.{ok, err, bad_address}
use restconf.Address.{split_uri, decode_error_path}

-- Nothing, or a text that ends in a slash.
pub data IsFolder : Bytes → Type 0 where
  none_at_all : IsFolder []
  folder : (s : Bytes) → IsFolder (s ++ b'/' ∷ [])

-- A module name, as an address can hold it.
pub record IsModuleName (m : Bytes) : Type 0 where
  pub no_slash : Lacks b'/' m
  pub no_colon : Lacks b':' m

pub record SplitsUri (uri m path : Bytes) : Type 0 where
  pub folder_name : Bytes
  pub whole : uri ≡ folder_name ++ (m ++ b':' ∷ path)
  pub is_folder : IsFolder folder_name
  pub no_colon : Lacks b':' folder_name
  pub is_module_name : IsModuleName m

cut_uri-none : (uri : Bytes) → Lacks b':' uri → split_uri uri ≡ err bad_address
unfolding split_uri
cut_uri-none uri l = rw (index_byte_of_Lacks uri b':' l)

-- The module begins behind the last slash before the first colon.
split_uri_plain : (m path : Bytes) → IsModuleName m → split_uri (m ++ b':' ∷ path) ≡ ok (m, path)
unfolding split_uri
split_uri_plain m path h = rw (
  index_byte-append m path b':' h.no_colon,
  take-append m (b':' ∷ path),
  drop-append_suc m b':' path,
  last_index_byte_of_Lacks m b'/' h.no_slash,
)

split_uri_folder :
    (s m path : Bytes)
    → Lacks b':' s
    → IsModuleName m
    → split_uri ((s ++ b'/' ∷ m) ++ b':' ∷ path) ≡ ok (m, path)
unfolding split_uri
split_uri_folder s m path l h = rw (
  index_byte-append (s ++ b'/' ∷ m) path b':'
      (Lacks-append b':' s (b'/' ∷ m) l (omega arith, h.no_colon)),
  take-append (s ++ b'/' ∷ m) (b':' ∷ path),
  drop-append_suc (s ++ b'/' ∷ m) b':' path,
  last_index_byte-append s m b'/' h.no_slash,
  drop-append_suc s b'/' m,
)

split_uri_complete : {uri m path : Bytes} → SplitsUri uri m path → split_uri uri ≡ ok (m, path)
split_uri_complete {uri} {m} {path} h = rw h.whole (go h.folder_name h.is_folder h.no_colon)
  where
    go :
        (f : Bytes) → IsFolder f → Lacks b':' f → split_uri (f ++ (m ++ b':' ∷ path)) ≡ ok (m, path)
    go f none_at_all l = split_uri_plain m path h.is_module_name
    go f (folder s) l =
        rw
          (append_assoc s (b'/' ∷ []) (m ++ b':' ∷ path), ← append_assoc s (b'/' ∷ m) (b':' ∷ path))
          (split_uri_folder s m path (Lacks-of_append b':' s (b'/' ∷ []) l).0 h.is_module_name)

-- How a text stands to the first colon in it.
data UriView (uri : Bytes) : Type 0 where
  no_colon : Lacks b':' uri → UriView uri
  splits : (m path : Bytes) → SplitsUri uri m path → UriView uri

uri_view : (uri : Bytes) → UriView uri
uri_view uri = elim (index_byte-Found uri b':') [
  | missing l e ↦ UriView.no_colon l
  | at b path e l i ↦ elim (last_index_byte-FoundLast b b'/') [
    | FoundLast.missing k j ↦ splits b path (record {
      folder_name = [];
      whole = e;
      is_folder = none_at_all;
      no_colon = tt;
      is_module_name = record { no_slash = k; no_colon = l };
    })
    | FoundLast.at s m f k j ↦
        let parts = Lacks-of_append b':' s (b'/' ∷ m) (rw f at l) in
        splits m path (record {
          folder_name = s ++ b'/' ∷ [];
          whole = e ∙ rw f (simp append_assoc);
          is_folder = folder s;
          no_colon = Lacks-append b':' s (b'/' ∷ []) parts.0 (omega arith);
          is_module_name = record { no_slash = k; no_colon = parts.1.1 };
        })
  ]
]

-- SplitUri accepts a text exactly if it is a folder without colons, a module name, a colon and the
-- path, and these are what it returns.
pub split_uri_iff : (uri m path : Bytes) → (split_uri uri ≡ ok (m, path)) ↔ SplitsUri uri m path
split_uri_iff uri m path = (
  λ e. elim (uri_view uri) [
    | UriView.no_colon l ↦ absurd (cc (cut_uri-none uri l))
    | splits m' path' h ↦
        let found = split_uri_complete h in
        let same_m : m' ≡ m = cc in
        let same_path : path' ≡ path = cc in rw (← same_m, ← same_path) h
  ],
  split_uri_complete,
)

-- SplitUri fails exactly for the texts that hold no colon.
split_uri-eq-err_iff : (uri : Bytes) → (split_uri uri ≡ err bad_address) ↔ Lacks b':' uri
split_uri-eq-err_iff uri = (
  λ e. elim (uri_view uri) [
    | UriView.no_colon l ↦ l
    | splits m path h ↦ absurd (cc (split_uri_complete h))
  ],
  cut_uri-none uri,
)

-- The path of an error report is a fixed point: reporting it again changes nothing.
decode_error_path_idem :
    (full_path : Bytes)
    → decode_error_path (decode_error_path full_path) ≡ decode_error_path full_path
unfolding decode_error_path
decode_error_path_idem full_path = elim (uri_view full_path) [
  | UriView.no_colon l ↦ rw (cut_uri-none full_path l) (rw (cut_uri-none full_path l))
  | splits m path h ↦ rw (split_uri_complete h, split_uri_plain m path h.is_module_name)
]
