-- ===== src/Channel.antt =====
-- channel.hpp: the unbuffered channel, as a step relation. Any number of threads send and receive; those
-- that are between two of their accesses to the channel stand in the lists `senders` and `receivers`.
-- `sent` and `received` are the values in the order in which they were stored and taken, `thrown` those
-- whose move in `receive` threw.
pub mod Inside
pub mod Order
pub mod Tests
use libglim.Base.{◌≡◌, Bool, true, false, List, [], ◌∷◌, ◌++◌}

pub data Phase : Type 0 where
  empty writing full : Phase

-- Where a thread in `send` stands: the exchange succeeded, the value is stored, the state is FULL.
pub data Sender (V : Type 0) : Type 0 where
  begun stored filled : V → Sender V

-- Where a thread in `receive` stands: it holds the mutex, it has taken the value.
pub data Receiver (V : Type 0) : Type 0 where
  holding : Receiver V
  taken : V → Receiver V

pub record Channel (V : Type 0) : Type 0 where
  pub value : V
  pub locked : Bool
  pub phase : Phase
  pub senders : List (Sender V)
  pub receivers : List (Receiver V)
  pub sent : List V
  pub received : List V
  pub thrown : List V

-- Channel()
abbrev pub initial : {V : Type 0} → V → Channel V
initial v = record {
  value = v;
  locked = true;
  phase = empty;
  senders = [];
  receivers = [];
  sent = [];
  received = [];
  thrown = [];
}

-- One access to the channel by one thread. The loop of `send` that finds the channel not empty, or
-- whose exchange fails spuriously, changes nothing.
pub data Step {V : Type 0} (c : Channel V) : Channel V → Type 0 where
  exchange :
      (v : V)
      → c.phase ≡ empty
      → Step c (record c { phase = writing; senders = begun v ∷ c.senders })
  store :
      (before after : List (Sender V)) (v : V)
      → c.senders ≡ before ++ begun v ∷ after
      → Step c
          (record c { value = v; senders = before ++ stored v ∷ after; sent = c.sent ++ v ∷ [] })
  -- The assignment throws, and leaves any value.
  store_throws :
      (before after : List (Sender V)) (v left : V)
      → c.senders ≡ before ++ begun v ∷ after
      → Step c (record c { value = left; phase = empty; senders = before ++ after })
  fill :
      (before after : List (Sender V)) (v : V)
      → c.senders ≡ before ++ stored v ∷ after
      → Step c (record c { phase = full; senders = before ++ filled v ∷ after })
  unlock :
      (before after : List (Sender V)) (v : V)
      → c.senders ≡ before ++ filled v ∷ after
      → Step c (record c { locked = false; senders = before ++ after })
  lock : c.locked ≡ false → Step c (record c { locked = true; receivers = holding ∷ c.receivers })
  take_value :
      (before after : List (Receiver V)) (left : V)
      → c.receivers ≡ before ++ holding ∷ after
      → Step c (record c {
        value = left;
        receivers = before ++ taken c.value ∷ after;
        received = c.received ++ c.value ∷ [];
      })
  -- The move of the value throws, and leaves any value: the state stays FULL and the mutex locked.
  take_throws :
      (before after : List (Receiver V)) (left : V)
      → c.receivers ≡ before ++ holding ∷ after
      → Step c (record c {
        value = left;
        receivers = before ++ after;
        thrown = c.thrown ++ c.value ∷ [];
      })
  release :
      (before after : List (Receiver V)) (v : V)
      → c.receivers ≡ before ++ taken v ∷ after
      → Step c (record c { phase = empty; receivers = before ++ after })

pub data Reachable {V : Type 0} (first : V) : Channel V → Type 0 where
  start : Reachable first (initial first)
  next : (c d : Channel V) → Reachable first c → Step c d → Reachable first d
