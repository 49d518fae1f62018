-- ===== src/Estream.antt =====
-- estream/: event streams, their subscriptions and receivers. A *node.Selection is an element of
-- `Sel`, a time.Time is a number, and its zero time is 0.
pub mod Subscription
pub mod Delivery
pub mod Apply
pub mod Service
pub mod Manage
use restconf.Prelude.{ℕ, Bool, true, false, ◌&&◌, Option, none, some, List}
use restconf.Text.{Bytes, is_empty}
use restconf.Errors.{Error, Result}

-- What notifySel.Notifications hands back: a closer, which a number stands for, and an error.
abbrev pub Closer : Type 0
Closer = ℕ

module _ (Sel : Type 0) where
  pub record Filter : Type 0 where
    pub name : Bytes
    pub filter : Option (Sel → Option Sel)

  -- `open` is told how much was logged before, so that its outcome may change with time.
  pub record Stream : Type 0 where
    pub name : Bytes
    pub description : Bytes
    pub replay_support : Bool
    pub replay_log_creation_time : ℕ
    pub replay_log_aged_time : ℕ
    pub open_stream : Option (ℕ → Result Sel)

  pub record SubscriptionOptions : Type 0 where
    pub filter : Filter
    pub stream : Stream
    pub replay_start_time : ℕ
    pub replay_start_time_revision : ℕ
    pub stop_time : ℕ
    pub purpose : Bytes
    pub source_address : Bytes
