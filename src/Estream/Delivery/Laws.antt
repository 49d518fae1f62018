-- ===== src/Estream/Delivery/Laws.antt =====
-- What a notification does to each receiver.
use restconf.Prelude.{
  ℕ, ◌+◌, ◌<◌, ◌≡◌, refl, ap, ◌∙◌, ◌≢◌, inl, inr, Option, some, List, [], ◌∷◌, arith, Bool-cases,
  length,
}
use mathlib.Core.Option
use Prim.Native.Nat.{◌^◌}
use restconf.Text.{Bytes, beq}
use restconf.Errors.{Error}
use restconf.Maps.{find}
use restconf.Decimal.{inc64, inc64_lem}
use restconf.Estream.Subscription.{
  active, suspended, sub_suspended, Effect, update_listeners, ReceiverEntry, activate_receiver,
}
use restconf.Estream.Delivery.{deliver_one, deliver}

module _ {Sel : Type 0} where
  -- The two counters of an entry.
  abbrev pub counted : ReceiverEntry Sel → ℕ
  counted r = r.sent_event_records + r.excluded_event_records

  -- The counters are not about to overflow.
  pub record HasRoom (r : ReceiverEntry Sel) : Type 0 where
    pub sent : r.sent_event_records + 1 < 2 ^ 64
    pub excluded : r.excluded_event_records + 1 < 2 ^ 64

module _ {Sel : Type 0} (text : Error → Bytes) (listeners : List ℕ) (id : Bytes) where
  -- The entry that a round leaves does not depend on what was logged before.
  entry_of :
      (time : ℕ) (event : Option Sel) (r : ReceiverEntry Sel) (log : List Effect)
      → (deliver_one text listeners id time event r log).0
        ≡ (deliver_one text listeners id time event r []).0
  unfolding deliver_one activate_receiver
  entry_of time event r log = ground arith

  -- After the delivery of a notification the entry under a name is what its own round, alone and
  -- with an empty log, makes of the entry that was there; where there was none, there is none.
  pub deliver_each :
      (time : ℕ) (event : Option Sel) (rs : List (Bytes × ReceiverEntry Sel)) (log : List Effect)
      (k : Bytes)
      → find (deliver text listeners id time event rs log).0 k
        ≡ Option.map (λ r. (deliver_one text listeners id time event r []).0) (find rs k)
  unfolding deliver find
  deliver_each time event [] log k = refl
  deliver_each time event ((j, r) ∷ rs) log k = elim (Bool-cases (beq j k)) [
    | inl same ↦ rw same (ap some (entry_of time event r log))
    | inr other ↦
        rw other (deliver_each time event rs (deliver_one text listeners id time event r log).1 k)
  ]

  -- A notification counts once for a receiver: as sent, or as excluded.
  deliver_one-counted :
      (time : ℕ) (event : Option Sel) (r : ReceiverEntry Sel) (log : List Effect)
      → HasRoom r
      → counted (deliver_one text listeners id time event r log).0 ≡ counted r + 1
  unfolding deliver_one activate_receiver inc64
  deliver_one-counted time event r log room = ground arith

  -- An active receiver that answers an event with an error is suspended at once, its count of sent
  -- events stays, and the listeners are told of the suspension with the text of the error.
  deliver_one_failure :
      (time : ℕ) (event : Sel) (r : ReceiverEntry Sel) (log : List Effect) (e : Error)
      → r.state ≡ active
      → r.receiver (record { name = r.name; event_time = time; event = event }) ≡ some e
      → ((deliver_one text listeners id time (some event) r log).0.state ≡ suspended)
        × ((deliver_one text listeners id time (some event) r log).0.sent_event_records
            ≡ r.sent_event_records)
        × ((deliver_one text listeners id time (some event) r log).1
            ≡ update_listeners listeners
                (record { event_id = sub_suspended; subscription = id; reason = text e })
                log)
  unfolding deliver_one activate_receiver
  deliver_one_failure time event r log e h k = (ground arith, ground arith, ground arith)

  -- The entry and the log after a sequence of notifications.
  abbrev pub deliver_all :
      List (ℕ × Option Sel) → ReceiverEntry Sel × List Effect → ReceiverEntry Sel × List Effect
  deliver_all [] (r, log) = (r, log)
  deliver_all ((time, event) ∷ ns) (r, log) =
      deliver_all ns (deliver_one text listeners id time event r log)

  exclude_lem :
      (time : ℕ) (event : Option Sel) (r : ReceiverEntry Sel) (log : List Effect)
      → r.state ≢ active
      → deliver_one text listeners id time event r log
        ≡ (record r { excluded_event_records = inc64 r.excluded_event_records }, log)
  unfolding deliver_one
  exclude_lem time event r log h = ground arith

  -- Over any sequence of notifications a suspended receiver stays as it is but for the count of
  -- excluded events, which grows by one for each of them, and nothing is logged, as long as that
  -- counter does not overflow.
  pub deliver_all_suspended :
      (ns : List (ℕ × Option Sel)) (r : ReceiverEntry Sel) (log : List Effect)
      → r.state ≡ suspended
      → r.excluded_event_records + length ns < 2 ^ 64
      → deliver_all ns (r, log)
        ≡ (record r { excluded_event_records = r.excluded_event_records + length ns }, log)
  deliver_all_suspended [] r log h room =
      ap (λ (n : ℕ). (record r { excluded_event_records = n }, log)) (omega arith)
  deliver_all_suspended ((time, event) ∷ ns) r log h room =
      let one : inc64 r.excluded_event_records ≡ r.excluded_event_records + 1 =
        inc64_lem r.excluded_event_records (omega arith) in
      ap (deliver_all ns) (exclude_lem time event r log (λ e. cc))
      ∙ deliver_all_suspended ns
          (record r { excluded_event_records = inc64 r.excluded_event_records }) log h (omega arith)
      ∙ ap (λ (n : ℕ). (record r { excluded_event_records = n }, log)) (omega arith)
