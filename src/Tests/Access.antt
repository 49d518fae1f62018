-- ===== src/Tests/Access.antt =====
-- Access at a concrete role.
use restconf.Prelude.{◌≡◌, [], ◌∷◌}
use restconf.Text.{codes}
use restconf.Secure.{Role, check, full, read}
use restconf.Secure.Access.{context_of, nearest, decide, check_lem}

abbrev mechanic : Role
mechanic = record {
  id = codes "mechanic";
  access =
      (codes "car", record { path = codes "car"; permissions = full })
      ∷ (codes "car/owner", record { path = codes "car/owner"; permissions = read })
      ∷ [];
}

check_lem_example :
    check mechanic
      (codes "car/owner/name")
      (context_of mechanic (codes "car/owner" ∷ codes "car" ∷ []))
      full
    ≡ decide (nearest mechanic (codes "car/owner/name" ∷ codes "car/owner" ∷ codes "car" ∷ [])) full
check_lem_example =
    check_lem mechanic (codes "car/owner/name") (codes "car/owner" ∷ codes "car" ∷ []) full
