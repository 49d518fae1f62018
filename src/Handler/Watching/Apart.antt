-- ===== src/Handler/Watching/Apart.antt =====
-- The event streams of concurrent requests (Handler/Watching) do not disturb each other.
use restconf.Prelude.{
  false, Option, none, some, List, [], ◌∷◌, ◌++◌, ◌≡◌, refl, sym, ◌∙◌, ap, arith, if◌then◌else◌,
  Bool-cases, inl, inr,
}
use restconf.Text.{Bytes, beq}
use restconf.Text.Laws.{beq_iff}
use restconf.Errors.{Error, Fc}
use restconf.Maps.{find}
use restconf.Maps.Laws.{find-store, find-delete}
use restconf.Http.{Response, set_header, write_header}
use restconf.Http.Laws.{IsUnbroken}
use restconf.Prelude.{All, Option-cases}
use restconf.Compliance.{is_xml}
use restconf.Sse.{decode_sse}
use restconf.Handler.{node_wtr}
use restconf.Handler.Stream.Received.{IsOneLine, payloads, send_notifications_received}
use restconf.Handler.Serve.{begin_stream}
use restconf.Handler.Stream.{Notification, send_notification, send_notifications}
use restconf.Handler.Watching.{
  Asked, Watch, Watches, Event, subscribed, notified, request_of, watch_step, put_error, placed,
  after_step, step, steps, steps_from,
}

-- The events of one request.
abbrev pub events_of : Bytes → List Event → List Event
events_of k [] = []
events_of k (e ∷ es) = let rest = events_of k es in if beq (request_of e) k then e ∷ rest else rest

-- Calls of the callback of a request.
abbrev pub notified_each : Bytes → List Notification → List Event
notified_each k [] = []
notified_each k (n ∷ ns) = notified k n ∷ notified_each k ns

module _ (fc : Fc) where
  alone_from :
      Option (Option Watch) → (Option Watch → Option (Option Watch)) → Option (Option Watch)
  alone_from none rest = none
  alone_from (some o) rest = rest o

  -- One request by itself.
  alone : List Event → Option Watch → Option (Option Watch)
  unfolding alone_from
  alone [] o = some o
  alone (e ∷ es) o = alone_from (watch_step fc e o) (λ o'. alone es o')

  find-placed :
      (k j : Bytes) (o : Option Watch) (m : List (Bytes × Watch))
      → find (placed fc k o m) j ≡ (if beq k j then o else find m j)
  unfolding placed
  find-placed k j none m = find-delete m k j
  find-placed k j (some watch) m = find-store m k j watch

  -- A step of another request, and one of its own.
  after_step_find :
      (e : Event) (k : Bytes) (s s' : Watches) (o : Option (Option Watch))
      → after_step fc e s o ≡ some s'
      → (o' : Option Watch) × (o ≡ some o')
        × (find s'.waiting k ≡ (if beq (request_of e) k then o' else find s.waiting k))
  unfolding after_step
  after_step_find e k s s' none q = absurd (cc q)
  after_step_find e k s s' (some o) q = (
    o,
    refl,
    ap (λ (x : List (Bytes × Watch)). find x k) (sym (ground arith))
        ∙ find-placed (request_of e) k o s.waiting,
  )

  steps-alone :
      (k : Bytes) (es : List Event) (s s' : Watches)
      → steps fc es s ≡ some s'
      → alone (events_of k es) (find s.waiting k) ≡ some (find s'.waiting k)
  unfolding steps alone events_of after_step step
  steps-alone k [] s s' q =
      ap (λ (x : Option Watches). some (elim x [ none ↦ none | some t ↦ find t.waiting k ])) q
  steps-alone k (e ∷ es) s s' q = elim (Option-cases (step fc e s)) [
    | inl stuck ↦ absurd (cc (q, ap (λ x. steps_from fc x (λ t. steps fc es t)) stuck))
    | inr (s1, went) ↦
        let rest : steps fc es s1 ≡ some s' =
          ap (λ x. steps_from fc x (λ t. steps fc es t)) (sym went) ∙ q in
        let later = steps-alone k es s1 s' rest in
        let (o, here, at) =
          after_step_find e k s s1 (watch_step fc e (find s.waiting (request_of e))) went in
        elim (Bool-cases (beq (request_of e) k)) [
          | inr other ↦ rw other (ap (alone (events_of k es)) (sym (at ∙ rw other refl)) ∙ later)
          | inl same ↦
              let own : watch_step fc e (find s.waiting k) ≡ some o =
                ap (λ j. watch_step fc e (find s.waiting j))
                  (sym ((beq_iff (request_of e) k).0 same))
                ∙ here in
              rw (same, own) (ap (alone (events_of k es)) (sym (at ∙ rw same refl)) ∙ later)
        ]
  ]

  put_error_inv :
      (x : Option Error × Response) (watch : Watch) (o : Option Watch)
      → put_error fc x watch ≡ some o
      → (watch' : Watch) × (o ≡ some watch')
        × (watch'.asked ≡ watch.asked)
        × (watch'.response ≡ x.1)
  unfolding put_error
  put_error_inv (none, w) watch o q = (record watch { response = w }, cc q, refl, refl)
  put_error_inv (some e, w) watch o q =
      (record watch { response = w; errors = watch.errors ++ e ∷ [] }, ground arith, refl, refl)

  abbrev Sent : Asked → List Notification → Response → Option Watch → Type 0
  Sent a ns w o =
      (watch : Watch) × (o ≡ some watch)
      × (watch.response ≡ (send_notifications fc a.compliance a.accept_type a.orig_mod ns w).1)

  alone_notified :
      (k : Bytes) (ns : List Notification) (watch : Watch) (o : Option Watch)
      → alone (notified_each k ns) (some watch) ≡ some o
      → Sent watch.asked ns watch.response o
  unfolding alone notified_each send_notifications
  alone_notified k [] watch o q = (watch, cc q, refl)
  alone_notified k (n ∷ ns) watch o q =
      elim (Option-cases (watch_step fc (notified k n) (some watch))) [
        | inl stuck ↦
            absurd (cc (q, ap (λ x. alone_from x (λ t. alone (notified_each k ns) t)) stuck))
        | inr (o1, went) ↦
            let (watch1, now, same, next) =
              put_error_inv
                (send_notification fc watch.asked.compliance watch.asked.accept_type
                  watch.asked.orig_mod n watch.response)
                watch o1 (unfold watch_step in went) in
            let rest : alone (notified_each k ns) (some watch1) ≡ some o =
              ap (λ x. alone_from x (λ t. alone (notified_each k ns) t)) (sym (went ∙ ap some now))
              ∙ q in
            let (watch2, at, sent) = alone_notified k ns watch1 o rest in
            (watch2, at, sent ∙ rw (same, next) refl)
      ]

  alone_subscribed :
      (k : Bytes) (a : Asked) (ns : List Notification) (o o' : Option Watch)
      → alone (subscribed k a none ∷ notified_each k ns) o ≡ some o'
      → Sent a ns (begin_stream a.response) o'
  unfolding alone watch_step
  alone_subscribed k a ns (some watch) o' q = absurd (cc q)
  alone_subscribed k a ns none o' q =
      alone_notified k ns (record { asked = a; response = begin_stream a.response; errors = [] }) o'
        q

  begin_stream-IsUnbroken :
      (w : Response) → IsUnbroken w → IsUnbroken (begin_stream w) × ((begin_stream w).body ≡ w.body)
  unfolding begin_stream set_header write_header
  begin_stream-IsUnbroken w h = elim (Option-cases w.status) [
    | inl e ↦ rw e (h, refl)
    | inr (code, e) ↦ rw e (h, refl)
  ]

  -- However the steps of many requests follow each other, a request that waits has in its response what
  -- its own notifications give, in their order, as if there was no other. So if it has no other event
  -- than its subscription and calls of its callback, accepts JSON on a connection that does not break,
  -- no time and no encoding holds a line feed, and no encoding is empty, its client decodes exactly
  -- those of its notifications that were encoded.
  pub steps_lem :
      (k : Bytes) (a : Asked) (ns : List Notification) (es : List Event) (s s' : Watches)
      → steps fc es s ≡ some s'
      → events_of k es ≡ subscribed k a none ∷ notified_each k ns
      → is_xml a.accept_type ≡ false
      → All (IsOneLine (node_wtr a.accept_type a.compliance)) ns
      → IsUnbroken a.response
      → a.response.body ≡ []
      → (watch : Watch) × (find s'.waiting k ≡ some watch)
        × (watch.response
            ≡ (send_notifications fc a.compliance a.accept_type a.orig_mod ns
                (begin_stream a.response)).1)
        × (decode_sse watch.response.body ≡ payloads fc a.compliance a.accept_type a.orig_mod ns)
  steps_lem k a ns es s s' went own json lines unbroken empty =
      let (watch, at, sent) = alone_subscribed k a ns (find s.waiting k) (find s'.waiting k) (
        ap (λ (x : List Event). alone x (find s.waiting k)) (sym own)
        ∙ steps-alone k es s s' went) in
      let (still, same) = begin_stream-IsUnbroken a.response unbroken in
      (
        watch,
        at,
        sent,
        rw sent (
            send_notifications_received fc a.compliance a.accept_type a.orig_mod ns
              (begin_stream a.response) json lines still (same ∙ empty)),
      )
