-- ===== src/Errors.antt =====
-- Go's `error` values as the program makes and tests them, and the pair `(A, error)` as a `Result`.
-- The texts and the status codes of package fc (github.com/freeconf/yang/fc) are the record `Fc`.
use restconf.Prelude.{◌≡◌, refl, ◌⊎◌, inl, inr, ℕ, Bool, true, false, [], ◌++◌}
use restconf.Text.{Bytes, codes}

pub data Error : Type 0 where
  -- ErrBadAddress of server.go
  bad_address : Error
  -- fmt.Errorf(before + "%w" + after, fc.NotFoundError); fc.NotFoundError itself has two empty texts
  not_found : (before after : Bytes) → Error
  -- fc.UnauthorizedError
  unauthorized : Error
  -- errors.New, and fmt.Errorf with no %w
  new : Bytes → Error
  -- an error made by other code
  foreign : ℕ → Error

pub record Fc : Type 0 where
  pub not_found_text : Bytes
  pub unauthorized_text : Bytes
  pub foreign_text : ℕ → Bytes
  -- fc.HttpStatusCode
  pub http_status_code : Error → ℕ

-- err.Error()
unfoldable pub text : Fc → Error → Bytes
text fc bad_address = codes "expected format: http://server/restconf[=device]/operation/module:path"
text fc (not_found before after) = before ++ (fc.not_found_text ++ after)
text fc unauthorized = fc.unauthorized_text
text fc (new t) = t
text fc (foreign n) = fc.foreign_text n

-- errors.Is(err, fc.NotFoundError)
unfoldable pub is_not_found : Error → Bool
is_not_found (not_found _ _) = true
is_not_found _ = false

abbrev pub not_found_error : Error
not_found_error = not_found [] []

pub data Result {ℓ} (A : Type ℓ) : Type ℓ where
  ok : A → Result A
  err : Error → Result A

infixl 5 ◌>>=◌
abbrev pub ◌>>=◌ {ℓ κ} : {A : Type ℓ} {B : Type κ} → Result A → (A → Result B) → Result B
ok a >>= f = f a
err e >>= f = err e

-- A call that may panic.
pub data Run {ℓ} (A : Type ℓ) : Type ℓ where
  panicked : Run A
  ret : A → Run A

pub Result-cases {ℓ} :
    {A : Type ℓ} (r : Result A) → ((a : A) × (r ≡ ok a)) ⊎ ((e : Error) × (r ≡ err e))
Result-cases (ok a) = inl (a, refl)
Result-cases (err e) = inr (e, refl)

-- A call after another, which may have panicked.
abbrev pub and_then {ℓ κ} : {A : Type ℓ} {B : Type κ} → Run A → (A → Run B) → Run B
and_then panicked f = panicked
and_then (ret a) f = f a
