-- ===== src/Tests/Addresses.antt =====
-- util.go at concrete addresses.
use restconf.Prelude.{◌≡◌, ◌↔◌}
use restconf.Text.{codes}
use restconf.Errors.{ok}
use restconf.Address.{Parts, split_uri}
use restconf.Address.Split.{SplitsUri, split_uri_iff}

abbrev car_parts : Parts
car_parts = record {
  address = codes "http://h/r/";
  module_name = codes "car";
  path = codes "a=b/c";
}

split_uri_iff_example :
    (split_uri (codes "/r/data/car:tire=1") ≡ ok (codes "car", codes "tire=1"))
    ↔ SplitsUri (codes "/r/data/car:tire=1") (codes "car") (codes "tire=1")
split_uri_iff_example = split_uri_iff (codes "/r/data/car:tire=1") (codes "car") (codes "tire=1")
