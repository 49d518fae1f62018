-- ===== src/Device/YangLib/Views.antt =====
-- The two views of a device's modules in its YANG library (device/yang_lib_node.go).
use restconf.Prelude.{some, [], ◌∷◌}
use restconf.Text.{Bytes}
use restconf.Device.YangLib.{ListRequest}

-- A request for the entry of one key.
abbrev pub keyed : Bytes → ListRequest
keyed k = record { key = some (k ∷ []); row = 0 }
