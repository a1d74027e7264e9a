-- ===== src/Channel/Tests.antt =====
-- A value that is sent and about to be received.
use libglim.Base.{ℕ, ◌+◌, ◌≤◌, ◌≡◌, refl, true, false, List, [], ◌∷◌, ◌++◌, length}
use libglim.Channel.{
  Channel, Reachable, initial, start, next, exchange, store, fill, unlock, lock, begun, stored,
  filled, holding, full, writing,
}
use libglim.Channel.Order.{received-Reachable, exclusive-Reachable}

-- A channel of numbers that one step after another changes.
abbrev after_exchange : Channel ℕ
after_exchange = record (initial 0) { phase = writing; senders = begun 7 ∷ [] }

abbrev after_store : Channel ℕ
after_store = record after_exchange { value = 7; senders = stored 7 ∷ []; sent = 7 ∷ [] }

abbrev after_fill : Channel ℕ
after_fill = record after_store { phase = full; senders = filled 7 ∷ [] }

abbrev after_unlock : Channel ℕ
after_unlock = record after_fill { locked = false; senders = [] }

abbrev after_lock : Channel ℕ
after_lock = record after_unlock { locked = true; receivers = holding ∷ [] }

reached : Reachable 0 after_lock
reached =
    next after_unlock after_lock
      (next after_fill after_unlock
        (next after_store after_fill
          (next after_exchange after_store (next (initial 0) after_exchange start (exchange 7 refl))
            (store [] [] 7 refl))
          (fill [] [] 7 refl))
        (unlock [] [] 7 refl))
      (lock refl)

received-Reachable_example :
    (rest : List ℕ) × (after_lock.sent ≡ after_lock.received ++ rest) × (length rest ≤ 1)
received-Reachable_example = received-Reachable 0 after_lock reached

exclusive-Reachable_example :
    (length after_lock.senders + length after_lock.receivers ≤ 1)
    × (1 ≤ length after_lock.receivers → after_lock.phase ≡ full)
exclusive-Reachable_example = exclusive-Reachable 0 after_lock reached
