-- ===== src/Handler/Watching.antt =====
-- How ServeHTTP of browser_handler.go waits in an event stream, from the first flush on, and the count
-- of the streams that are open. Requests are served at the same time: each goes on by steps of its
-- own, in any order, and a change of the count is one step.
pub mod Apart
pub mod Count
use restconf.Prelude.{
  ℕ, ◌+◌, ◌-◌, Bool, true, false, Option, none, some, List, [], ◌∷◌, ◌++◌, length, ltb,
  if◌then◌else◌,
}
use Prim.Native.Nat.{◌%◌, ◌^◌}
use restconf.Text.{Bytes}
use restconf.Errors.{Error, Fc}
use restconf.Decimal.{inc64}
use restconf.Maps.{find, store, delete}
use restconf.Http.{Response}
use restconf.Compliance.{ComplianceOptions}
use restconf.Wire.{Module}
use restconf.Handler.Stream.{Notification, send_notification}
use restconf.Handler.Serve.{begin_stream}

-- What a request for a stream brings, and its response.
pub record Asked : Type 0 where
  pub compliance : ComplianceOptions
  pub accept_type : Bytes
  pub orig_mod : Module
  pub response : Response

-- A request that waits, with the errors on its channel errOnSend.
pub record Watch : Type 0 where
  pub asked : Asked
  pub response : Response
  pub errors : List Error

-- The requests that wait, by a name that each has.
pub record Watches : Type 0 where
  pub subscribe_count : ℕ
  pub waiting : List (Bytes × Watch)

-- What happens to a request: it subscribes, which Notifications may refuse; its callback is called;
-- its client goes; or it takes an error from its channel.
pub data Event : Type 0 where
  subscribed : (request : Bytes) → Asked → (refused : Option Error) → Event
  notified : (request : Bytes) → Notification → Event
  done : (request : Bytes) → Event
  failed : (request : Bytes) → Event

unfoldable pub request_of : Event → Bytes
request_of (subscribed k a e) = k
request_of (notified k n) = k
request_of (done k) = k
request_of (failed k) = k

-- the int decrement
unfoldable pub dec64 : ℕ → ℕ
dec64 n = (n + (2 ^ 64 - 1)) % 2 ^ 64

abbrev pub no_watches : Watches
no_watches = record { subscribe_count = 0; waiting = [] }

-- What becomes of subscribeCount; where Notifications fails, the deferred decrement runs at once.
unfoldable pub counted : Event → ℕ → ℕ
counted (subscribed k a none) n = inc64 n
counted (subscribed k a (some e)) n = dec64 (inc64 n)
counted (notified k m) n = n
counted (done k) n = dec64 n
counted (failed k) n = dec64 n

module _ (fc : Fc) where
  -- The channel holds 20 errors; with so many the callback does not return, which is no step.
  put_error : Option Error × Response → Watch → Option (Option Watch)
  put_error (none, w) watch = some (some (record watch { response = w }))
  put_error (some e, w) watch =
      if ltb (length watch.errors) 20
      then some (some (record watch { response = w; errors = watch.errors ++ e ∷ [] }))
      else none

  on_error : List Error → Option (Option Watch)
  on_error [] = none
  on_error (e ∷ es) = some none

  -- A step of one request, which waits or not: `none` if it cannot happen.
  unfoldable pub watch_step : Event → Option Watch → Option (Option Watch)
  unfolding put_error on_error
  watch_step (subscribed k a none) none =
      some (some (record { asked = a; response = begin_stream a.response; errors = [] }))
  watch_step (subscribed k a (some e)) none = some none
  watch_step (subscribed k a e) (some watch) = none
  watch_step (notified k n) none = none
  watch_step (notified k n) (some watch) =
      put_error
        (send_notification fc watch.asked.compliance watch.asked.accept_type watch.asked.orig_mod n
          watch.response)
        watch
  watch_step (done k) none = none
  watch_step (done k) (some watch) = some none
  watch_step (failed k) none = none
  watch_step (failed k) (some watch) = on_error watch.errors

  unfoldable pub placed : Bytes → Option Watch → List (Bytes × Watch) → List (Bytes × Watch)
  placed k none m = delete m k
  placed k (some watch) m = store m k watch

  unfoldable pub after_step : Event → Watches → Option (Option Watch) → Option Watches
  after_step e s none = none
  after_step e s (some o) = some (record {
    subscribe_count = counted e s.subscribe_count;
    waiting = placed (request_of e) o s.waiting;
  })

  -- A step among the requests that wait.
  unfoldable pub step : Event → Watches → Option Watches
  step e s = after_step e s (watch_step e (find s.waiting (request_of e)))

  steps_from : Option Watches → (Watches → Option Watches) → Option Watches
  steps_from none rest = none
  steps_from (some s) rest = rest s

  -- Any sequence of steps.
  unfoldable pub steps : List Event → Watches → Option Watches
  unfolding steps_from
  steps [] s = some s
  steps (e ∷ es) s = steps_from (step e s) (λ s'. steps es s')
