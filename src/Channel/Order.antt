-- ===== src/Channel/Order.antt =====
-- The channel hands over each value once and in order.
use libglim.Base.{
  ◌+◌, ◌≤◌, ◌≡◌, refl, sym, ap, subst, ◌∙◌, List, [], ◌∷◌, ◌++◌, append-nil, arith, length,
}
use libglim.Channel.{
  full, take_throws, begun, holding, Channel, Step, exchange, store, store_throws, fill, unlock,
  lock, take_value, release, Reachable, start, next,
}
use libglim.Channel.Inside.{
  Inside, stuck, lost, nobody, writer, storer, filler, waiting, reader, leaver, Explains, pending,
  senders_of, receivers_of, writer_at, storer_at, filler_at, phase_of, reader_at, leaver_at,
  nobody_lem, waiting_lem,
}

module _ {V : Type 0} where
  as_inside : {i j : Inside V} (c : Channel V) → Explains i c → i ≡ j → Explains j c
  as_inside c h e = subst (λ k. Explains k c) e h

  Explains-step :
      (i : Inside V) (c d : Channel V) → Explains i c → Step c d → (j : Inside V) × Explains j d
  Explains-step i c _ h (exchange v e) =
      let k = as_inside c h (nobody_lem i (sym h.phase ∙ e)) in
      (
        writer v,
        record {
          senders = ap (λ l. begun v ∷ l) k.senders;
          receivers = k.receivers;
          phase = refl;
          locked = k.locked;
          value = tt;
          thrown = k.thrown;
          order = k.order;
        },
      )
  Explains-step i c _ h (store before after v e) =
      let (at, a, b) = writer_at i before after v (sym h.senders ∙ e) in
      let k = as_inside c h at in
      (
        storer v,
        record {
          senders = rw (a, b) refl;
          receivers = k.receivers;
          phase = k.phase;
          locked = k.locked;
          value = refl;
          thrown = k.thrown;
          order = ap (λ l. l ++ v ∷ []) (k.order ∙ append-nil c.received);
        },
      )
  Explains-step i c _ h (store_throws before after v left e) =
      let (at, a, b) = writer_at i before after v (sym h.senders ∙ e) in
      let k = as_inside c h at in
      (
        nobody,
        record {
          senders = rw (a, b) refl;
          receivers = k.receivers;
          phase = refl;
          locked = k.locked;
          value = tt;
          thrown = k.thrown;
          order = k.order;
        },
      )
  Explains-step i c _ h (fill before after v e) =
      let (at, a, b) = storer_at i before after v (sym h.senders ∙ e) in
      let k = as_inside c h at in
      (
        filler v,
        record {
          senders = rw (a, b) refl;
          receivers = k.receivers;
          phase = refl;
          locked = k.locked;
          value = k.value;
          thrown = k.thrown;
          order = k.order;
        },
      )
  Explains-step i c _ h (unlock before after v e) =
      let (at, a, b) = filler_at i before after v (sym h.senders ∙ e) in
      let k = as_inside c h at in
      (
        waiting v,
        record {
          senders = rw (a, b) refl;
          receivers = k.receivers;
          phase = k.phase;
          locked = refl;
          value = k.value;
          thrown = k.thrown;
          order = k.order;
        },
      )
  Explains-step i c _ h (lock e) =
      let (v, at) = waiting_lem i (sym h.locked ∙ e) in
      let k = as_inside c h at in
      (
        reader v,
        record {
          senders = k.senders;
          receivers = ap (λ l. holding ∷ l) k.receivers;
          phase = k.phase;
          locked = refl;
          value = k.value;
          thrown = k.thrown;
          order = k.order;
        },
      )
  Explains-step i c _ h (take_value before after left e) =
      let ((v, at), a, b) = reader_at i before after (sym h.receivers ∙ e) in
      let k = as_inside c h at in
      (
        leaver c.value,
        record {
          senders = k.senders;
          receivers = rw (a, b) refl;
          phase = k.phase;
          locked = k.locked;
          value = tt;
          thrown = k.thrown;
          order =
              k.order
              ∙ ap (λ x. c.received ++ x ∷ []) (sym k.value)
              ∙ sym (append-nil (c.received ++ c.value ∷ []));
        },
      )
  Explains-step i c _ h (take_throws before after left e) =
      let ((v, at), a, b) = reader_at i before after (sym h.receivers ∙ e) in
      let k = as_inside c h at in
      (
        stuck c.value,
        record {
          senders = k.senders;
          receivers = rw (a, b) refl;
          phase = k.phase;
          locked = k.locked;
          value = tt;
          thrown = ap (λ l. l ++ c.value ∷ []) k.thrown;
          order = k.order ∙ ap (λ x. c.received ++ x ∷ []) (sym k.value);
        },
      )
  Explains-step i c _ h (release before after v e) =
      let (at, a, b) = leaver_at i before after v (sym h.receivers ∙ e) in
      let k = as_inside c h at in
      (
        nobody,
        record {
          senders = k.senders;
          receivers = rw (a, b) refl;
          phase = refl;
          locked = k.locked;
          value = tt;
          thrown = k.thrown;
          order = k.order;
        },
      )

  Explains-Reachable :
      (first : V) (c : Channel V) → Reachable first c → (i : Inside V) × Explains i c
  Explains-Reachable first _ start = (
    nobody,
    record {
      senders = refl;
      receivers = refl;
      phase = refl;
      locked = refl;
      value = tt;
      thrown = refl;
      order = refl;
    },
  )
  Explains-Reachable first _ (next c d r step) =
      let (i, h) = Explains-Reachable first c r in Explains-step i c d h step

  -- At every moment the values received are those sent, in order and each once, but for at most one
  -- that is on its way.
  pub received-Reachable :
      (first : V) (c : Channel V)
      → Reachable first c
      → (rest : List V) × (c.sent ≡ c.received ++ rest) × (length rest ≤ 1)
  received-Reachable first c r =
      let (i, h) = Explains-Reachable first c r in (pending i ++ lost i, h.order, one i)
    where
      one : (i : Inside V) → length (pending i ++ lost i) ≤ 1
      one nobody = omega arith
      one (writer v) = omega arith
      one (storer v) = omega arith
      one (filler v) = omega arith
      one (waiting v) = omega arith
      one (reader v) = omega arith
      one (leaver v) = omega arith
      one (stuck v) = omega arith

  -- No two threads are inside at one time, so that the value is never read and written at once; and the
  -- assertion of `receive` holds: with a receiver inside, the state is FULL.
  pub exclusive-Reachable :
      (first : V) (c : Channel V)
      → Reachable first c
      → (length c.senders + length c.receivers ≤ 1) × (1 ≤ length c.receivers → c.phase ≡ full)
  exclusive-Reachable first c r =
      let (i, h) = Explains-Reachable first c r in
      (
        rw (ap length h.senders, ap length h.receivers) (alone i),
        λ inside. h.phase ∙ full_lem i (subst (λ l. 1 ≤ length l) h.receivers inside),
      )
    where
      alone : (i : Inside V) → length (senders_of i) + length (receivers_of i) ≤ 1
      alone nobody = omega arith
      alone (writer v) = omega arith
      alone (storer v) = omega arith
      alone (filler v) = omega arith
      alone (waiting v) = omega arith
      alone (reader v) = omega arith
      alone (leaver v) = omega arith
      alone (stuck v) = omega arith

      full_lem : (i : Inside V) → 1 ≤ length (receivers_of i) → phase_of i ≡ full
      full_lem (reader v) h = refl
      full_lem (leaver v) h = refl
      full_lem nobody h = elim h [ ]
      full_lem (writer v) h = elim h [ ]
      full_lem (storer v) h = elim h [ ]
      full_lem (filler v) h = elim h [ ]
      full_lem (waiting v) h = elim h [ ]
      full_lem (stuck v) h = elim h [ ]
