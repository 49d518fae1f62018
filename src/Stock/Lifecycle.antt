-- ===== src/Stock/Lifecycle.antt =====
-- The listeners of a web server (stock/web.go), over the options that it is given.
use restconf.Prelude.{
  ℕ, true, false, Option, none, some, [], ◌∷◌, ◌++◌, ◌≡◌, ◌≢◌, ◌↔◌, refl, arith, ==_iff, Bool-cases,
  inl, inr,
}
use restconf.Text.Laws.{beq_iff}
use restconf.Errors.{ret}
use restconf.Stock.{
  HttpServerOptions, HttpServer, same_options, same_pointer, listener_of, apply_options, stop,
  shut_down,
}

same_pointer_iff : (p q : Option ℕ) → (same_pointer p q ≡ true) ↔ (p ≡ q)
unfolding same_pointer
same_pointer_iff none none = ground arith
same_pointer_iff none (some q) = ground arith
same_pointer_iff (some p) none = ground arith
same_pointer_iff (some p) (some q) = ground (arith, ==_iff p q)

pub same_options_iff : (a b : HttpServerOptions) → (same_options a b ≡ true) ↔ (a ≡ b)
unfolding same_options
same_options_iff a b = ground (
  arith,
  beq_iff a.addr b.addr,
  beq_iff a.port b.port,
  same_pointer_iff a.tls b.tls,
  beq_iff a.iface b.iface,
  beq_iff a.callback_address b.callback_address,
)

pub same_options_ne : (a b : HttpServerOptions) → a ≢ b → same_options a b ≡ false
same_options_ne a b h = elim (Bool-cases (same_options a b)) [
  | inl e ↦ absurd (h ((same_options_iff a b).0 e))
  | inr e ↦ e
]

-- ApplyOptions takes options that are not those of before and adds one listener at their port; to
-- apply them again does nothing. No listener is ended by it.
apply_options_lem :
    (o : HttpServerOptions) (s : HttpServer)
    → o ≢ s.options
    → ((apply_options o s).options ≡ o)
      × (apply_options o (apply_options o s) ≡ apply_options o s)
      × ((apply_options o s).made ≡ s.made ++ (listener_of o, true) ∷ [])
unfolding apply_options
apply_options_lem o s ne =
    rw (same_options_ne o s.options ne) (refl, rw ((same_options_iff o o).1 refl) refl, refl)

-- Stop ends the last listener only: of a server without listeners that got two different options
-- one after the other, the first of them not those that it had, the first listener goes on.
pub stop_leaves_first :
    (first second : HttpServerOptions) (s : HttpServer)
    → s.made ≡ []
    → first ≢ s.options
    → second ≢ first
    → (s' : HttpServer) × (stop (apply_options second (apply_options first s)) ≡ ret s')
      × (s'.made ≡ (listener_of first, true) ∷ (listener_of second, false) ∷ [])
unfolding apply_options stop shut_down
stop_leaves_first first second s empty ne ne' =
    let a = same_options_ne first s.options ne in
    let b = same_options_ne second first ne' in
    (
      record s {
        options = second;
        server = some 1;
        made = (listener_of first, true) ∷ (listener_of second, false) ∷ [];
      },
      rw (a, b, empty) refl,
      refl,
    )
