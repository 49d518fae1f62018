-- ===== src/Estream/Service/Ids.antt =====
-- Subscription ids are never used twice.
use restconf.Prelude.{
  ℕ, ◌+◌, ◌<◌, ◌≡◌, refl, sym, ◌∙◌, ◌≢◌, inl, inr, Option, none, some, List, arith, Option-cases,
  subst,
}
use Prim.Native.Nat.{◌^◌}
use restconf.Text.{Bytes}
use restconf.Text.Laws.{beq_iff, beq_self}
use restconf.Errors.{Error, Result, ok, err}
use restconf.Maps.{find, store}
use restconf.Maps.Laws.{find-store, find-store_inv}
use restconf.Decimal.{inc64, inc64_lem, format_int, format_int-injective}
use restconf.Estream.{Closer, SubscriptionOptions}
use restconf.Estream.Subscription.{Run, ret, panicked, Effect, Subscription, new_subscription}
use restconf.Estream.Apply.{apply}
use restconf.Estream.Service.{
  Service, EstablishRequest, new_service, next_sub_id, update_stream, established, apply_new,
  choose_stream, establish_subscription,
}

-- The id was given out: it is the number of an earlier subscription.
abbrev pub IsGiven : ℕ → Bytes → Type 0
IsGiven counter id = (n : ℕ) × (id ≡ format_int n) × (n < counter)

module _ {Sel : Type 0} where
  -- Every subscription stands under its own id, which was given out.
  pub record IsNumbered (s : Service Sel) : Type 0 where
    pub under_id :
        (k : Bytes) (sub : Subscription Sel) → find s.subscriptions k ≡ some sub → sub.id ≡ k
    pub given :
        (k : Bytes) (sub : Subscription Sel)
        → find s.subscriptions k ≡ some sub
        → IsGiven s.subcription_counter k
    pub in_range : s.subcription_counter < 2 ^ 63

  new_service-IsNumbered : IsNumbered (new_service {Sel = Sel})
  unfolding new_service find
  new_service-IsNumbered = record {
    under_id = λ k sub e. cc;
    given = λ k sub e. absurd (cc);
    in_range = omega arith;
  }

  -- An id that is given out next stands in no entry.
  fresh_id :
      (s : Service Sel)
      → IsNumbered s
      → find s.subscriptions (format_int s.subcription_counter) ≡ none
  fresh_id s h = elim (Option-cases (find s.subscriptions (format_int s.subcription_counter))) [
    | inl e ↦ e
    | inr (sub, e) ↦
        let (n, same, below) = h.given _ sub e in
        let equal : s.subcription_counter ≡ n =
          format_int-injective s.subcription_counter n h.in_range (omega (arith, h.in_range))
            same in
        absurd (omega arith)
  ]

  module _ (notifications : Sel → ℕ → Option Closer × Option Error) where
    apply-id :
        (opts : SubscriptionOptions Sel) (sub : Subscription Sel) (log : List Effect)
        {e : Option Error} {sub' : Subscription Sel} {log' : List Effect}
        → apply notifications opts sub log ≡ ret (e, sub', log')
        → sub'.id ≡ sub.id
    unfolding apply
    apply-id opts sub log h = ground arith

    -- What a successful EstablishSubscription has done to the map and the counter.
    record Added (id : Bytes) (s s' : Service Sel) : Type 0 where
      sub : Subscription Sel
      own_id : sub.id ≡ id
      stored : s'.subscriptions ≡ store s.subscriptions id sub
      counter : s'.subcription_counter ≡ s.subcription_counter

    established-Added :
        (m : Run (Option Error × Subscription Sel × List Effect)) (s s' : Service Sel)
        (given id : Bytes)
        → ((sub : Subscription Sel) (log : List Effect) → m ≡ ret (none, sub, log) → sub.id ≡ given)
        → established notifications m s ≡ ret (ok id, s')
        → (given ≡ id) × Added id s s'
    unfolding established
    established-Added panicked s s' given id own e = absurd (cc)
    established-Added (ret (some x, sub, log)) s s' given id own e = absurd (cc)
    established-Added (ret (none, sub, log)) s s' given id own e =
        let same : sub.id ≡ id = cc in
        (
          sym (own sub log refl) ∙ same,
          record { sub = sub; own_id = same; stored = ground arith; counter = ground arith },
        )

    apply_new-Added :
        (o : Result (SubscriptionOptions Sel)) (given id : Bytes) (s s' : Service Sel)
        → apply_new notifications o given s ≡ ret (ok id, s')
        → (given ≡ id) × Added id s s'
    unfolding apply_new new_subscription
    apply_new-Added (err x) given id s s' e = absurd (cc)
    apply_new-Added (ok opts) given id s s' e =
        established-Added _ s s' given id
          (λ sub log h. apply-id opts (new_subscription given) s.log h) e

    choose_stream-Added :
        (o : Result (SubscriptionOptions Sel)) (stream given id : Bytes) (s s' : Service Sel)
        → choose_stream notifications o stream given s ≡ ret (ok id, s')
        → (given ≡ id) × Added id s s'
    unfolding choose_stream
    choose_stream-Added (err x) stream given id s s' e = absurd (cc)
    choose_stream-Added (ok opts) stream given id s s' e =
        apply_new-Added (update_stream s stream opts) given id s s' e

    establish_subscription-Added :
        (req : EstablishRequest) (s s' : Service Sel) (id : Bytes)
        → establish_subscription notifications req s ≡ ret (ok id, s')
        → (format_int s.subcription_counter ≡ id) × Added id (next_sub_id s).1 s'
    unfolding establish_subscription next_sub_id
    establish_subscription-Added req s s' id e = choose_stream-Added _ req.stream _ id _ s' e

    -- In a service where every subscription stands under its own id, an earlier value of the
    -- counter, EstablishSubscription succeeds with an id under which there was no subscription;
    -- the new one stands under it, and all others stay.
    establish_subscription_fresh :
        (req : EstablishRequest) (s s' : Service Sel) (id : Bytes)
        → IsNumbered s
        → establish_subscription notifications req s ≡ ret (ok id, s')
        → (find s.subscriptions id ≡ none)
          × ((sub : Subscription Sel) × (find s'.subscriptions id ≡ some sub) × (sub.id ≡ id))
          × ((k : Bytes) → k ≢ id → find s'.subscriptions k ≡ find s.subscriptions k)
    unfolding establish_subscription next_sub_id
    establish_subscription_fresh req s s' id h e =
        let (same, a) = establish_subscription-Added req s s' id e in
        (
          subst (λ i. find s.subscriptions i ≡ none) same (fresh_id s h),
          (a.sub, rw (a.stored, find-store s.subscriptions id id a.sub, beq_self id), a.own_id),
          λ k ne.
              rw (a.stored, find-store s.subscriptions id k a.sub) (ground (arith, beq_iff id k)),
        )

    -- What a failed EstablishSubscription leaves.
    record Refused (s s' : Service Sel) : Type 0 where
      kept : s'.subscriptions ≡ s.subscriptions
      counter : s'.subcription_counter ≡ s.subcription_counter

    established-Refused :
        (m : Run (Option Error × Subscription Sel × List Effect)) (s s' : Service Sel) (x : Error)
        → established notifications m s ≡ ret (err x, s')
        → Refused s s'
    unfolding established
    established-Refused panicked s s' x e = absurd (cc)
    established-Refused (ret (some y, sub, log)) s s' x e = ground arith
    established-Refused (ret (none, sub, log)) s s' x e = absurd (cc)

    apply_new-Refused :
        (o : Result (SubscriptionOptions Sel)) (id : Bytes) (s s' : Service Sel) (x : Error)
        → apply_new notifications o id s ≡ ret (err x, s')
        → Refused s s'
    unfolding apply_new
    apply_new-Refused (err y) id s s' x e = ground arith
    apply_new-Refused (ok opts) id s s' x e = established-Refused _ s s' x e

    choose_stream-Refused :
        (o : Result (SubscriptionOptions Sel)) (stream id : Bytes) (s s' : Service Sel) (x : Error)
        → choose_stream notifications o stream id s ≡ ret (err x, s')
        → Refused s s'
    unfolding choose_stream
    choose_stream-Refused (err y) stream id s s' x e = ground arith
    choose_stream-Refused (ok opts) stream id s s' x e = apply_new-Refused _ id s s' x e

    -- A refused request leaves the subscriptions as they were.
    establish_subscription_refused :
        (req : EstablishRequest) (s s' : Service Sel) (x : Error)
        → establish_subscription notifications req s ≡ ret (err x, s')
        → (s'.subscriptions ≡ s.subscriptions)
          × (s'.subcription_counter ≡ inc64 s.subcription_counter)
    unfolding establish_subscription next_sub_id
    establish_subscription_refused req s s' x e =
        let r = choose_stream-Refused _ req.stream _ _ s' x e in (r.kept, r.counter)

    IsGiven-later : (n m : ℕ) (k : Bytes) → m ≡ n + 1 → IsGiven n k → IsGiven m k
    IsGiven-later n m k e (i, same, below) = (i, same, omega arith)

    -- EstablishSubscription, whether it succeeds or fails, keeps that every subscription stands
    -- under its own id and that this id is an earlier value of the counter, as long as the counter
    -- does not overflow.
    pub establish_subscription-IsNumbered :
        (req : EstablishRequest) (s s' : Service Sel) (r : Result Bytes)
        → IsNumbered s
        → s.subcription_counter + 1 < 2 ^ 63
        → establish_subscription notifications req s ≡ ret (r, s')
        → IsNumbered s'
    unfolding next_sub_id
    establish_subscription-IsNumbered req s s' (ok id) h room e =
        let (same, a) = establish_subscription-Added req s s' id e in
        let up : s'.subcription_counter ≡ s.subcription_counter + 1 =
          a.counter ∙ inc64_lem s.subcription_counter (omega arith) in
        let old = λ (k : Bytes) (sub : Subscription Sel) (f : find s'.subscriptions k ≡ some sub).
          find-store_inv s.subscriptions id k a.sub sub
            (subst (λ m. find m k ≡ some sub) a.stored f) in
        record {
          under_id = λ k sub f. elim (old k sub f) [
            | inl (i, j) ↦ subst (λ (x : Subscription Sel). x.id ≡ k) j (a.own_id ∙ i)
            | inr g ↦ h.under_id k sub g
          ];
          given = λ k sub f. elim (old k sub f) [
            | inl (i, j) ↦ (s.subcription_counter, sym i ∙ sym same, omega (arith, up))
            | inr g ↦ IsGiven-later s.subcription_counter _ k up (h.given k sub g)
          ];
          in_range = omega (arith, up);
        }
    establish_subscription-IsNumbered req s s' (err x) h room e =
        let (kept, counter) = establish_subscription_refused req s s' x e in
        let up : s'.subcription_counter ≡ s.subcription_counter + 1 =
          counter ∙ inc64_lem s.subcription_counter (omega arith) in
        record {
          under_id = λ k sub f. h.under_id k sub (subst (λ m. find m k ≡ some sub) kept f);
          given = λ k sub f.
              IsGiven-later s.subcription_counter _ k up
                (h.given k sub (subst (λ m. find m k ≡ some sub) kept f));
          in_range = omega (arith, up);
        }
