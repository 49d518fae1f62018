-- ===== src/Address/Full.antt =====
-- SplitAddress: which addresses it accepts, and the parts that it returns.
use restconf.Prelude.{◌≡◌, ◌≢◌, some, [], ◌∷◌, ◌++◌, length}
use restconf.Text.{Bytes, codes, index}
use restconf.Text.Laws.{Lacks}
use restconf.Errors.{err, bad_address}
use restconf.Address.{Parts, split_address}
use restconf.Address.Split.{IsFolder, IsModuleName}

-- `url` is scheme "//" host "/" folder module ":" path, with the first "//" of the whole, the first
-- "/" behind it and the first ":" behind that.
pub record SplitsAddress (url : Bytes) (p : Parts) : Type 0 where
  pub scheme : Bytes
  pub host : Bytes
  pub folder_name : Bytes
  pub first_slashes : index url (codes "//") ≡ some (length scheme)
  pub address_is : p.address ≡ scheme ++ (codes "//" ++ (host ++ b'/' ∷ folder_name))
  pub whole : url ≡ p.address ++ (p.module_name ++ b':' ∷ p.path)
  pub no_slash : Lacks b'/' host
  pub is_folder : IsFolder folder_name
  pub no_colon : Lacks b':' folder_name
  pub is_module_name : IsModuleName p.module_name
  pub not_at_once : folder_name ++ p.module_name ≢ []

module _ (scheme host m path : Bytes) where
  -- The address that these parts make, in the form in which the scan meets it.
  abbrev scanned : Bytes → Bytes
  scanned f = scheme ++ (codes "//" ++ (host ++ b'/' ∷ (f ++ (m ++ b':' ∷ path))))

  abbrev parts_of : Bytes → Parts
  parts_of f = record {
    address = scheme ++ (codes "//" ++ (host ++ b'/' ∷ f));
    module_name = m;
    path = path;
  }

data AddressView (url : Bytes) : Type 0 where
  refused : split_address url ≡ err bad_address → AddressView url
  splits : (p : Parts) → SplitsAddress url p → AddressView url
