-- ===== src/Secure/Access.antt =====
-- Who may do what.
use restconf.Prelude.{
  ℕ, ◌<◌, ◌≡◌, refl, inl, inr, Bool, true, false, Option, none, some, List, [], ◌∷◌, arith, ◌==◌,
  if◌then◌else◌, Option-cases, leb, All, ◌↔◌,
}
use restconf.Text.{Bytes}
use restconf.Errors.{Error, unauthorized}
use restconf.Maps.{find}
use restconf.Secure.{
  no_permission, read, full, AccessControl, Role, no_access, Context, allowed_by, check,
  context_constraint, Rbac, constrain_root, verify_loop, verify_request,
}

-- The context of a selection that was reached along schema paths, the nearest first.
abbrev pub context_of : Role → List Bytes → Context
context_of role [] = none
context_of role (p ∷ above) = context_constraint role p (context_of role above)

abbrev or_else : Option AccessControl → ℕ → ℕ
or_else (some acl) n = acl.permissions
or_else none n = n

-- The specification: the permission of the nearest path that has an access control, and None where
-- no path has one.
abbrev pub nearest : Role → List Bytes → ℕ
nearest role [] = no_permission
nearest role (p ∷ above) = or_else (find role.access p) (nearest role above)

-- A read without permission is left out silently, everything else is refused.
abbrev pub decide : ℕ → ℕ → Bool × Option Error
decide allowed requested =
    if leb requested allowed
    then (true, none)
    else (false, if requested == read then none else some unauthorized)

context_lem :
    (role : Role) (above : List Bytes)
    → allowed_by none (context_of role above) ≡ nearest role above
unfolding allowed_by context_constraint
context_lem role [] = refl
context_lem role (p ∷ above) = elim (Option-cases (find role.access p)) [
  | inl e ↦ rw e (context_lem role above)
  | inr (acl, e) ↦ rw e
]

-- The check of a path, in the context of a selection that was reached along the schema paths
-- `above`, decides by the nearest of all these paths that has an access control: enough permission
-- passes, too little leaves a read out silently and refuses everything else.
pub check_lem :
    (role : Role) (p : Bytes) (above : List Bytes) (requested : ℕ)
    → check role p (context_of role above) requested ≡ decide (nearest role (p ∷ above)) requested
unfolding check
check_lem role p above requested = elim (Option-cases (find role.access p)) [
  | inl e ↦ rw e (ground (arith, context_lem role above))
  | inr (acl, e) ↦ rw e (ground arith)
]

-- Whoever may change, create, call or subscribe may read.
check_mono :
    (role : Role) (p : Bytes) (c : Context)
    → (check role p c full).0 ≡ true
    → check role p c read ≡ (true, none)
unfolding check
check_mono role p c h = ground arith

module _ {ℓ} {C : Type ℓ} (verify : C → Option Error) where
  verify_loop-none_iff :
      (certs : List C) (error : Option Error)
      → (verify_loop verify certs error ≡ none)
        ↔ (All (λ c. verify c ≡ none) certs × (error ≡ none))
  unfolding verify_loop
  verify_loop-none_iff [] error = ((λ e. (tt, e)), (λ h. h.1))
  verify_loop-none_iff (c ∷ certs) error = elim (Option-cases (verify c)) [
    | inl e ↦ rw e (ground (arith, verify_loop-none_iff certs error))
    | inr (bad, e) ↦ rw e (ground (arith, verify_loop-none_iff certs (some bad)))
  ]

  -- A request passes exactly if every certificate of it verifies.
  verify_request_iff :
      (certs : List C) → (verify_request verify certs ≡ none) ↔ All (λ c. verify c ≡ none) certs
  unfolding verify_request
  verify_request_iff certs =
      let (to, from) = verify_loop-none_iff certs none in ((λ e. (to e).0), (λ h. from (h, refl)))

nearest-no_access : (paths : List Bytes) → nearest no_access paths ≡ no_permission
unfolding find
nearest-no_access [] = refl
nearest-no_access (p ∷ above) = nearest-no_access above

-- A role that is not listed is denied every permission above None, below any path: a read
-- silently, all else with an error.
unknown_role_denied :
    (roles : Rbac) (name p : Bytes) (above : List Bytes) (requested : ℕ)
    → find roles name ≡ none
    → 0 < requested
    → let role = constrain_root (λ id weight priority r (c : Role). r) roles name no_access in
      check role p (context_of role above) requested
      ≡ (false, if requested == read then none else some unauthorized)
unfolding constrain_root
unknown_role_denied roles name p above requested h pos =
    rw h (rw (check_lem no_access p above requested, nearest-no_access (p ∷ above)) (ground arith))
