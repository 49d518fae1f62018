-- ===== src/Stock/Metrics.antt =====
-- The connection metrics of a web server (stock/web.go).
use Prim.Native.Nat.{◌%◌, ◌^◌}
use restconf.Prelude.{
  ℕ, ◌+◌, ◌<◌, Bool, true, false, List, [], ◌∷◌, ◌≡◌, refl, ◌∙◌, arith, Bool-cases, inl, inr,
  if◌then◌else◌,
}
use restconf.Decimal.{inc64}
use restconf.Stock.{
  HttpServer, WebMetrics, ConnState, state_new, state_active, state_idle, state_hijacked,
  state_closed, connection_update,
}

-- The counter of a state.
abbrev pub counter : ConnState → WebMetrics → ℕ
counter state_new m = m.new
counter state_active m = m.active
counter state_idle m = m.idle
counter state_hijacked m = m.hijacked
counter state_closed m = m.closed

is_state : ConnState → ConnState → Bool
is_state state_new state_new = true
is_state state_active state_active = true
is_state state_idle state_idle = true
is_state state_hijacked state_hijacked = true
is_state state_closed state_closed = true
is_state _ _ = false

pub occurs : ConnState → List ConnState → ℕ
unfolding is_state
occurs c [] = 0
occurs c (d ∷ ds) = let rest = occurs c ds in if is_state c d then rest + 1 else rest

-- The calls for a sequence of changes.
pub connection_updates : List ConnState → HttpServer → HttpServer
connection_updates [] service = service
connection_updates (d ∷ ds) service = connection_updates ds (connection_update d service)

counter_update :
    (c d : ConnState) (s : HttpServer)
    → counter c s.metrics < 2 ^ 64
    → counter c (connection_update d s).metrics
      ≡ (counter c s.metrics + (if is_state c d then 1 else 0)) % 2 ^ 64
unfolding connection_update inc64 is_state
counter_update state_new state_new s h = omega arith
counter_update state_new state_active s h = omega arith
counter_update state_new state_idle s h = omega arith
counter_update state_new state_hijacked s h = omega arith
counter_update state_new state_closed s h = omega arith
counter_update state_active state_new s h = omega arith
counter_update state_active state_active s h = omega arith
counter_update state_active state_idle s h = omega arith
counter_update state_active state_hijacked s h = omega arith
counter_update state_active state_closed s h = omega arith
counter_update state_idle state_new s h = omega arith
counter_update state_idle state_active s h = omega arith
counter_update state_idle state_idle s h = omega arith
counter_update state_idle state_hijacked s h = omega arith
counter_update state_idle state_closed s h = omega arith
counter_update state_hijacked state_new s h = omega arith
counter_update state_hijacked state_active s h = omega arith
counter_update state_hijacked state_idle s h = omega arith
counter_update state_hijacked state_hijacked s h = omega arith
counter_update state_hijacked state_closed s h = omega arith
counter_update state_closed state_new s h = omega arith
counter_update state_closed state_active s h = omega arith
counter_update state_closed state_idle s h = omega arith
counter_update state_closed state_hijacked s h = omega arith
counter_update state_closed state_closed s h = omega arith

-- After any changes of connections every counter, which was below 2 ^ 64, has gone up by the
-- number of changes to its state, modulo 2 ^ 64, and by nothing else.
pub connection_updates_lem :
    (c : ConnState) (ds : List ConnState) (s : HttpServer)
    → counter c s.metrics < 2 ^ 64
    → counter c (connection_updates ds s).metrics ≡ (counter c s.metrics + occurs c ds) % 2 ^ 64
unfolding connection_updates occurs
connection_updates_lem c [] s h = omega arith
connection_updates_lem c (d ∷ ds) s h =
    let one = counter_update c d s h in
    let below : counter c (connection_update d s).metrics < 2 ^ 64 = omega (arith, one) in
    let rest = connection_updates_lem c ds (connection_update d s) below in
    elim (Bool-cases (is_state c d)) [
      | inl here ↦
          let went : counter c (connection_update d s).metrics
              ≡ (counter c s.metrics + 1) % 2 ^ 64 =
            one ∙ rw here refl in
          rw here (omega (arith, rest, went))
      | inr other ↦
          let stayed : counter c (connection_update d s).metrics
              ≡ (counter c s.metrics + 0) % 2 ^ 64 =
            one ∙ rw other refl in
          rw other (omega (arith, rest, stayed))
    ]
