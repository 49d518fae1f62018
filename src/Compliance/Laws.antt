-- ===== src/Compliance/Laws.antt =====
-- Which compliance a request gets.
use restconf.Prelude.{◌≡◌, true, arith, ◌↔◌}
use restconf.Compliance.{ComplianceOptions, same_options}

same_options_iff : (a b : ComplianceOptions) → (same_options a b ≡ true) ↔ (a ≡ b)
unfolding same_options
same_options_iff a b = ground arith
