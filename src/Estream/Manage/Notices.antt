-- ===== src/Estream/Manage/Notices.antt =====
-- Which listener sends which event of a subscription (estream/api.go).
use restconf.Prelude.{
  ℕ, true, Option, none, some, [], ◌∷◌, ◌++◌, ◌≡◌, ◌↔◌, ◌⊎◌, refl, sym, ap, ◌∙◌, arith, Bool-cases,
  inl, inr, if◌then◌else◌,
}
use restconf.Text.{Bytes, codes, beq}
use restconf.Text.Laws.{beq_iff}
use restconf.Estream.Subscription.{
  SubEventType, sub_suspended, sub_terminated, sub_completed, sub_modified, sub_resumed,
  sub_started, SubEvent,
}
use restconf.Estream.Service.{Service, on_event}
use restconf.Estream.Manage.{
  EventListener, same_type, notification_type, event, sends, on_notify, listening,
}

-- The notification of ietf-subscribed-notifications that tells of a type of event.
pub name_of : SubEventType → Bytes
name_of sub_suspended = codes "subscription-suspended"
name_of sub_terminated = codes "subscription-terminated"
name_of sub_completed = codes "replay-completed"
name_of sub_modified = codes "subscription-modified"
name_of sub_resumed = codes "subscription-resumed"
name_of sub_started = codes "subscription-started"

notification_type-name_of : (t : SubEventType) → notification_type (name_of t) ≡ some t
unfolding notification_type name_of beq
notification_type-name_of sub_suspended = refl
notification_type-name_of sub_terminated = refl
notification_type-name_of sub_completed = refl
notification_type-name_of sub_modified = refl
notification_type-name_of sub_resumed = refl
notification_type-name_of sub_started = refl

-- One test of the switch.
this_or_rest :
    (ident c : Bytes) (v t : SubEventType) (rest : Option SubEventType)
    → (if beq ident c then some v else rest) ≡ some t
    → ((ident ≡ c) × (v ≡ t)) ⊎ (rest ≡ some t)
this_or_rest ident c v t rest e = elim (Bool-cases (beq ident c)) [
  | inl here ↦ inl ((beq_iff ident c).0 here, ground arith)
  | inr other ↦ inr (ground arith)
]

named : (ident : Bytes) (v t : SubEventType) → (ident ≡ name_of v) × (v ≡ t) → ident ≡ name_of t
named ident v t (i, q) = i ∙ ap name_of q

name_of_type :
    (ident : Bytes) (t : SubEventType) → notification_type ident ≡ some t → ident ≡ name_of t
unfolding notification_type name_of
name_of_type ident t e =
    elim (this_or_rest ident (codes "subscription-suspended") sub_suspended t _ e) [
      | inl h ↦ named ident sub_suspended t h
      | inr e ↦ elim (this_or_rest ident (codes "subscription-terminated") sub_terminated t _ e) [
        | inl h ↦ named ident sub_terminated t h
        | inr e ↦ elim (this_or_rest ident (codes "replay-completed") sub_completed t _ e) [
          | inl h ↦ named ident sub_completed t h
          | inr e ↦ elim (this_or_rest ident (codes "subscription-modified") sub_modified t _ e) [
            | inl h ↦ named ident sub_modified t h
            | inr e ↦ elim (this_or_rest ident (codes "subscription-resumed") sub_resumed t _ e) [
              | inl h ↦ named ident sub_resumed t h
              | inr e ↦
                  elim (this_or_rest ident (codes "subscription-started") sub_started t none e) [
                    | inl h ↦ named ident sub_started t h
                    | inr e ↦ absurd (cc e)
                  ]
            ]
          ]
        ]
      ]
    ]

same_type_iff : (t u : SubEventType) → (same_type t u ≡ true) ↔ (t ≡ u)
unfolding same_type
same_type_iff t u = ground arith

same_type-beq :
    (ident : Bytes) (t u : SubEventType)
    → notification_type ident ≡ some t
    → same_type t u ≡ beq ident (name_of u)
same_type-beq ident t u e = elim (Bool-cases (same_type t u)) [
  | inl same ↦
      let here : ident ≡ name_of u =
        name_of_type ident t e ∙ ap name_of ((same_type_iff t u).0 same) in
      same ∙ sym ((beq_iff ident (name_of u)).1 here)
  | inr other ↦ elim (Bool-cases (beq ident (name_of u))) [
    | inr no_match ↦ other ∙ sym no_match
    | inl match ↦
        let both : t ≡ u = cc (
          e,
          ap notification_type ((beq_iff ident (name_of u)).0 match),
          notification_type-name_of u,
        ) in
        absurd (cc (other, (same_type_iff t u).1 both))
  ]
]

listening_inv :
    {Sel : Type 0} (l : ℕ) (o : Option SubEventType) (s s' : Service Sel) (h : EventListener)
    → listening l o s ≡ (some h, s')
    → (o ≡ some h.etype) × (s'.listeners ≡ s.listeners ++ l ∷ [])
unfolding listening on_event
listening_inv l none s s' h e = absurd (cc (ap (λ (x : Option EventListener × Service _). x.0) e))
listening_inv l (some t) s s' h e = (ground arith, ground arith)

-- A listener on a service that is made for a notification stands behind the listeners that were
-- there, and sends an event exactly if the notification is the one that tells of the event's type.
pub on_notify-sends :
    {Sel : Type 0} (l : ℕ) (ident : Bytes) (s s' : Service Sel) (h : EventListener) (e : SubEvent)
    → on_notify l ident s ≡ (some h, s')
    → (s'.listeners ≡ s.listeners ++ l ∷ [])
      × (sends h.etype e ≡ (if beq ident (name_of e.event_id) then some (event e) else none))
unfolding on_notify sends
on_notify-sends l ident s s' h e made =
    let (typed, added) = listening_inv l (notification_type ident) s s' h made in
    (added, rw (same_type-beq ident h.etype e.event_id typed) refl)
