-- ===== src/Estream/Apply.antt =====
-- Subscription.Apply of sub.go.
use restconf.Prelude.{ℕ, Option, none, some, List, [], ◌∷◌, ◌++◌, length}
use restconf.Errors.{Error, Result, ok, err}
use restconf.Estream.{Closer, SubscriptionOptions}
use restconf.Estream.Subscription.{
  Effect, opened, closed, subscribed, Run, panicked, ret, Subscription,
}

close : Option Closer → List Effect → List Effect
close none log = log
close (some c) log = log ++ closed c ∷ []

-- `notifications` is Selection.Notifications: told how much was logged before, as an opener is.
module _ {Sel : Type 0} (notifications : Sel → ℕ → Option Closer × Option Error) where
  -- what `Open` answered
  subscribe :
      Result Sel
      → SubscriptionOptions Sel
      → Subscription Sel
      → List Effect
      → Option Error × Subscription Sel × List Effect
  subscribe (err e) opts s log = (some e, s, log)
  subscribe (ok sel) opts s log =
      let (closer, e) = notifications sel (length log) in
      (e, record s { opts = opts; closer = closer }, log ++ subscribed s.id ∷ [])

  -- a stream with no `Open` is a call of nil
  open_and_subscribe :
      Option (ℕ → Result Sel)
      → SubscriptionOptions Sel
      → Subscription Sel
      → List Effect
      → Run (Option Error × Subscription Sel × List Effect)
  unfolding subscribe
  open_and_subscribe none opts s log = panicked
  open_and_subscribe (some open_it) opts s log =
      ret (subscribe (open_it (length log)) opts s (log ++ opened opts.stream.name ∷ []))

  unfoldable pub apply :
      SubscriptionOptions Sel
      → Subscription Sel
      → List Effect
      → Run (Option Error × Subscription Sel × List Effect)
  unfolding open_and_subscribe close
  apply opts s log = open_and_subscribe opts.stream.open_stream opts s (close s.closer log)
