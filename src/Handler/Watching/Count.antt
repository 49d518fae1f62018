-- ===== src/Handler/Watching/Count.antt =====
-- The count of open event streams (Handler/Watching), which the server's management shows.
use Prim.Native.Nat.{◌%◌, ◌^◌}
use restconf.Prelude.{ℕ, Option, none, some, ◌≡◌, length}
use restconf.Errors.{Fc}
use restconf.Decimal.{inc64}
use restconf.Maps.Laws.{IsMap}
use restconf.Handler.Watching.{Watch, Watches, Event, dec64, counted}

-- Every request that waits stands once, and the count is their number, modulo 2 ^ 64.
pub record IsCounted (s : Watches) : Type 0 where
  pub once : IsMap s.waiting
  pub count : s.subscribe_count ≡ length s.waiting % 2 ^ 64

module _ (fc : Fc) where
  -- Whether a request waits before and after a step, and what becomes of the count.
  data Change (e : Event) (n : ℕ) : Option Watch → Option Watch → Type 0 where
    begins : {w : Watch} → counted e n ≡ inc64 n → Change e n none (some w)
    refused : counted e n ≡ dec64 (inc64 n) → Change e n none none
    goes_on : {w w' : Watch} → counted e n ≡ n → Change e n (some w) (some w')
    ends : {w : Watch} → counted e n ≡ dec64 n → Change e n (some w) none
