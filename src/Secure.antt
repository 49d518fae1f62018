-- ===== src/Secure.antt =====
-- secure/authorize.go, rbac.go, authenticate.go and mgmt.go: role-based access to schema paths.
-- A meta definition is its schema path, and of a context only the value under permKey matters.
pub mod Access
pub mod Generator
use restconf.Prelude.{
  ℕ, Bool, true, false, Option, none, some, List, [], ◌∷◌, leb, ◌==◌, if◌then◌else◌,
}
use restconf.Text.{Bytes, codes, beq}
use restconf.Maps.{find}
use restconf.Errors.{Error, unauthorized}

-- Permission: None, Read, Full
abbrev pub no_permission : ℕ
no_permission = 0

abbrev pub read : ℕ
read = 1

abbrev pub full : ℕ
full = 2

pub record AccessControl : Type 0 where
  pub path : Bytes
  pub permissions : ℕ

pub record Role : Type 0 where
  pub id : Bytes
  pub access : List (Bytes × AccessControl)

abbrev pub no_access : Role
no_access = record { id = []; access = [] }

unfoldable pub new_role : Role
new_role = record { id = []; access = [] }

abbrev pub Context : Type 0
Context = Option ℕ

-- what the access control of the path says, or else the context
allowed_by : Option AccessControl → Context → ℕ
allowed_by (some acl) c = acl.permissions
allowed_by none (some x) = x
allowed_by none none = no_permission

unfoldable pub check : Role → Bytes → Context → ℕ → Bool × Option Error
unfolding allowed_by
check role path c requested =
    let allowed = allowed_by (find role.access path) c in
    if requested == read
    then (leb read allowed, none)
    else if leb requested allowed
    then (true, none)
    else (false, some unauthorized)

-- `new` is r.New, `write` is r.Write
unfoldable pub check_list_pre_constraints : Role → Bool → Bytes → Context → Bool × Option Error
check_list_pre_constraints role new path c = check role path c (if new then full else read)

unfoldable pub check_container_pre_constraints : Role → Bool → Bytes → Context → Bool × Option Error
check_container_pre_constraints role new path c = check role path c (if new then full else read)

unfoldable pub check_field_pre_constraints : Role → Bool → Bytes → Context → Bool × Option Error
check_field_pre_constraints role write path c = check role path c (if write then full else read)

unfoldable pub check_notify_filter_constraints : Role → Bytes → Context → Bool × Option Error
check_notify_filter_constraints role path c = check role path c full

unfoldable pub check_action_pre_constraints : Role → Bytes → Context → Bool × Option Error
check_action_pre_constraints role path c = check role path c full

with_permission : Option AccessControl → Context → Context
with_permission (some acl) c = some acl.permissions
with_permission none c = c

unfoldable pub context_constraint : Role → Bytes → Context → Context
unfolding with_permission
context_constraint role path c = with_permission (find role.access path) c

-- Rbac is its map Roles.
abbrev pub Rbac : Type 0
Rbac = List (Bytes × Role)

or_no_access : Option Role → Role
or_no_access (some r) = r
or_no_access none = no_access

-- `add` is node.Constraints.AddConstraint
unfoldable pub constrain_root {ℓ} :
    {C : Type ℓ} → (Bytes → ℕ → ℕ → Role → C → C) → Rbac → Bytes → C → C
unfolding or_no_access
constrain_root add roles role c = add (codes "auth") 0 0 (or_no_access (find roles role)) c

later_error : Option Error → Option Error → Option Error
later_error (some invalid) error = some invalid
later_error none error = error

-- The loop of VerifyRequest, with `verify` for cert.Verify(opts); `error` is err.
unfoldable pub verify_loop {ℓ} :
    {C : Type ℓ} → (C → Option Error) → List C → Option Error → Option Error
unfolding later_error
verify_loop verify [] error = error
verify_loop verify (cert ∷ certs) error = verify_loop verify certs (later_error (verify cert) error)

unfoldable pub verify_request {ℓ} : {C : Type ℓ} → (C → Option Error) → List C → Option Error
unfolding verify_loop
verify_request verify certs = verify_loop verify certs none

-- What OnChild of Manage answers: no node, the node itself, or what the base node answers.
pub data Child : Type 0 where
  no_child itself of_base : Child

unfoldable pub manage_child : Bytes → Child
manage_child ident =
    if beq ident (codes "authentication")
    then no_child
    else if beq ident (codes "authorization")
    then itself
    else of_base

-- OnField of Manage: a write of `perm` sets the permissions to the enum's number, a read of it gives
-- them, and every other field is the base node's (`none`).
unfoldable pub manage_field : Bytes → Bool → ℕ → AccessControl → Option (AccessControl × Option ℕ)
manage_field ident write enum_id ac =
    if beq ident (codes "perm")
    then some
        (if write then (record ac { permissions = enum_id }, none) else (ac, some ac.permissions))
    else none
