-- ===== src/Decimal.antt =====
-- strconv.FormatInt(n, 10) at a 64-bit integer, which is given by its bit pattern.
use restconf.Prelude.{
  ℕ, zero, suc, ◌+◌, ◌-◌, ◌*◌, ◌<◌, ◌≤◌, ◌≡◌, sym, ◌∙◌, ap, [], ◌∷◌, arith, ltb, if◌then◌else◌,
  Bool-cases, inl, inr,
}
use Prim.Native.Nat.{◌/◌, ◌%◌, ◌^◌}
use restconf.Text.{Bytes}

-- The digits of n in front of `out`; the fuel is above n.
digits : ℕ → ℕ → Bytes → Bytes
digits zero n out = out
digits (suc fuel) n out =
    let rest = digits fuel (n / 10) ((b'0' + n % 10) ∷ out) in
    if ltb n 10 then (b'0' + n) ∷ out else rest

unfoldable pub print_nat : ℕ → Bytes
unfolding digits
print_nat n = digits (suc n) n []

unfoldable pub format_int : ℕ → Bytes
unfolding print_nat
format_int n = if ltb n (2 ^ 63) then print_nat n else b'-' ∷ print_nat (2 ^ 64 - n)

-- the int64 increment
unfoldable pub inc64 : ℕ → ℕ
inc64 n = (n + 1) % 2 ^ 64

pub inc64_lem : (n : ℕ) → n + 1 < 2 ^ 64 → inc64 n ≡ n + 1
unfolding inc64
inc64_lem n h = omega arith

-- an int64 result
unfoldable pub wrap64 : ℕ → ℕ
wrap64 n = n % 2 ^ 64

-- The number that digits spell, read on from `n`.
value : ℕ → Bytes → ℕ
value n [] = n
value n (c ∷ s) = value (n * 10 + (c - b'0')) s

value-digits : (fuel n : ℕ) (out : Bytes) → n < fuel → value 0 (digits fuel n out) ≡ value n out
unfolding digits value
value-digits zero n out h = absurd (omega arith)
value-digits (suc fuel) n out h = elim (Bool-cases (ltb n 10)) [
  | inl small ↦ rw small (ap (λ k. value k out) (omega arith))
  | inr large ↦
      let low : 10 ≤ n = ground arith in
      let again : n / 10 * 10 + (b'0' + n % 10 - b'0') ≡ n = omega arith in
      rw large (
        value-digits fuel (n / 10) ((b'0' + n % 10) ∷ out) (omega arith)
        ∙ ap (λ k. value k out) again)
]

value-print_nat : (n : ℕ) → value 0 (print_nat n) ≡ n
unfolding print_nat value
value-print_nat n = value-digits (suc n) n [] (omega arith)

-- Different numbers are printed differently.
pub format_int-injective : (n m : ℕ) → n < 2 ^ 63 → m < 2 ^ 63 → format_int n ≡ format_int m → n ≡ m
unfolding format_int
format_int-injective n m h k e =
    sym (value-print_nat n) ∙ ap (value 0) (ground arith) ∙ value-print_nat m
