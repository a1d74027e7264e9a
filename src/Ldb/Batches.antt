-- ===== src/Ldb/Batches.antt =====
-- The operations on a database one by one and in one batch.
use mathlib.Core.List.{append_assoc}
use libglim.Base.{
  ◌≡◌, refl, sym, ap, ◌∙◌, Option, none, some, List, [], ◌∷◌, ◌++◌, ◌==◌, length, if◌then◌else◌,
  Bool-cases, inl, inr,
}
use libglim.Ldb.Store.{
  fine, put_update, delete_update, Batch, Level, Outcome, returned, thrown, and_then, Serial, Slots,
  Triggers, write, written, put_batch, put, del_batch, del,
}
use libglim.Ldb.Updates.{
  Contents, applied, applied-append, Promises, Follow, all_updates, each_trigger-all_updates,
}

pub data Operation (K V : Type 0) : Type 0 where
  putting : K → V → Operation K V
  deleting : K → Operation K V

module _ {D : Type 0} (L : Level D) {K V : Type 0} (keys : Serial K) (values : Serial V)
    (triggers : Triggers D K V) where
  unfoldable pub operate : Operation K V → D → Outcome D (Unit {0})
  unfolding put del
  operate (putting k v) db = put L keys values triggers k v db
  operate (deleting k) db = del L keys values triggers k db

  unfoldable pub operate_batch : Operation K V → Batch → D → Outcome (Slots D) (Unit {0})
  unfolding put_batch del_batch
  operate_batch (putting k v) batch db = put_batch L keys values triggers k v batch db
  operate_batch (deleting k) batch db = del_batch L keys values triggers k batch db

  -- The operations one after the other.
  unfoldable pub operate_each : List (Operation K V) → D → Outcome D (Unit {0})
  unfolding operate
  operate_each [] db = returned tt db
  operate_each (o ∷ os) db = and_then (operate o db) (λ _. operate_each os)

  -- The operations on one batch, which is written at the end.
  unfoldable pub collect_batch : List (Operation K V) → Batch → D → Outcome (Slots D) (Unit {0})
  unfolding operate_batch
  collect_batch [] batch db =
      returned tt (record { db = db; kbytes = []; vbytes = []; batch = batch })
  collect_batch (o ∷ os) batch db =
      and_then (operate_batch o batch db) (λ _ s. collect_batch os s.batch s.db)

  unfoldable pub operate_at_once : List (Operation K V) → D → Outcome D (Unit {0})
  unfolding collect_batch write
  operate_at_once os db = written L (collect_batch os [] db)

-- Both runs return and leave the same contents, or both throw and the second one has changed nothing.
abbrev pub Agree :
    {D : Type 0} → (D → Contents) → D → Outcome D (Unit {0}) → Outcome D (Unit {0}) → Type 0
Agree contents db (returned u a) (returned v b) = contents a ≡ contents b
Agree contents db (thrown a) (thrown b) = contents b ≡ contents db
Agree contents db (returned u a) (thrown b) = ⊥
Agree contents db (thrown a) (returned v b) = ⊥

module _ {D : Type 0} (L : Level D) {K V : Type 0} (keys : Serial K) (values : Serial V)
    (triggers : Triggers D K V) (f : Follow triggers) where
  -- What an operation adds to a batch; none is an empty key that is deleted.
  unfoldable effects : Operation K V → Option Batch
  unfolding all_updates
  effects (putting k v) =
      let kb = keys.serialize k in
      let vb = values.serialize v in
      some (
        all_updates (λ trigger. trigger.on_put k v) triggers (f.0 k v) kb vb
        ++ put_update kb vb ∷ [])
  effects (deleting k) =
      let kb = keys.serialize k in
      if length kb == 0
      then none
      else some (
          all_updates (λ trigger. trigger.on_del k) triggers (f.1 k) kb [] ++ delete_update kb ∷ [])

  -- The batch grows by the updates, or the operation throws; the database is left alone.
  abbrev Outcomes : Option Batch → Batch → D → Outcome (Slots D) (Unit {0}) → Type 0
  Outcomes none batch db out = (s : Slots D) × (out ≡ thrown s) × (s.db ≡ db)
  Outcomes (some added) batch db out =
      (s : Slots D) × (out ≡ returned tt s) × (s.db ≡ db) × (s.batch ≡ batch ++ added)

  operate_batch-effects :
      (o : Operation K V) (batch : Batch) (db : D)
      → Outcomes (effects o) batch db (operate_batch L keys values triggers o batch db)
  unfolding effects operate_batch put_batch del_batch
  operate_batch-effects (putting k v) batch db = (
    _,
    ap
        (λ out.
          and_then out (λ _ s.
            returned tt (record s { batch = s.batch ++ put_update s.kbytes s.vbytes ∷ [] })))
        (each_trigger-all_updates (λ trigger. trigger.on_put k v) triggers (f.0 k v)
          (record {
            db = db;
            kbytes = keys.serialize k;
            vbytes = values.serialize v;
            batch = batch;
          })),
    refl,
    append_assoc batch _ _,
  )
  operate_batch-effects (deleting k) batch db = elim (Bool-cases (length (keys.serialize k) == 0)) [
    | inl empty ↦ rw empty (_, refl, refl)
    | inr there ↦ rw there (
      _,
      ap
          (λ out.
            and_then out
              (λ _ s. returned tt (record s { batch = s.batch ++ delete_update s.kbytes ∷ [] })))
          (each_trigger-all_updates (λ trigger. trigger.on_del k) triggers (f.1 k)
            (record { db = db; kbytes = keys.serialize k; vbytes = []; batch = batch })),
      refl,
      append_assoc batch _ _,
    )
  ]

  operate_lem :
      (o : Operation K V) (db : D)
      → operate L keys values triggers o db
        ≡ written L (operate_batch L keys values triggers o [] db)
  unfolding operate operate_batch put del
  operate_lem (putting k v) db = refl
  operate_lem (deleting k) db = refl

  written_lem :
      (P : Promises L)
      → ((batch : Batch) (db : D) → (L.write batch db).0 ≡ fine)
      → (batch : Batch) (db : D)
      → (after : D) × (write L batch db ≡ returned tt after)
        × (P.contents after ≡ applied batch (P.contents db))
  unfolding write
  written_lem P fines batch db =
      ((L.write batch db).1, rw (fines batch db) refl, P.write_law batch db (fines batch db))

  Agree-from :
      (P : Promises L)
      → ((batch : Batch) (db : D) → (L.write batch db).0 ≡ fine)
      → (os : List (Operation K V)) (batch : Batch) (db each : D)
      → P.contents each ≡ applied batch (P.contents db)
      → Agree
          (P.contents)
          db
          (operate_each L keys values triggers os each)
          (written L (collect_batch L keys values triggers os batch db))
  unfolding operate_each collect_batch
  Agree-from P fines [] batch db each same =
      let (after, e, reads) = written_lem P fines batch db in rw e (same ∙ sym reads)
  Agree-from P fines (o ∷ os) batch db each same = rw (operate_lem o each) (
      step (effects o) (Agree-from P fines os) (operate_batch-effects o [] each)
        (operate_batch-effects o batch db))
    where
      step :
          (e : Option Batch)
          → ((batch : Batch) (db each : D)
              → P.contents each ≡ applied batch (P.contents db)
              → Agree
                  (P.contents)
                  db
                  (operate_each L keys values triggers os each)
                  (written L (collect_batch L keys values triggers os batch db)))
          → Outcomes e [] each (operate_batch L keys values triggers o [] each)
          → Outcomes e batch db (operate_batch L keys values triggers o batch db)
          → Agree
              (P.contents)
              db
              (and_then
                (written L (operate_batch L keys values triggers o [] each))
                (λ _. operate_each L keys values triggers os))
              (written L (
                and_then
                  (operate_batch L keys values triggers o batch db)
                  (λ _ s. collect_batch L keys values triggers os s.batch s.db)))
      step none later (s, one, there) (t, all, here) = rw (one, all) (ap (P.contents) here)
      step (some added) later (s, one, there, grown) (t, all, here, all_grown) =
          let (after, e, reads) = written_lem P fines added each in
          rw (one, all, there, grown, here, all_grown, e)
            (later (batch ++ added) db after
              (reads ∙ ap (applied added) same ∙ sym (applied-append batch added (P.contents db))))

  -- Operations on one batch that is written at the end leave the contents that the operations leave one
  -- by one, or both throw and the batch has changed nothing. Each trigger does nothing but add updates to
  -- the batch, which follow from the key, the value and their bytes alone and not from the database, and
  -- the writes of leveldb do not fail.
  pub operate_at_once-Agree :
      (P : Promises L)
      → ((batch : Batch) (db : D) → (L.write batch db).0 ≡ fine)
      → (os : List (Operation K V)) (db : D)
      → Agree
          (P.contents)
          db
          (operate_each L keys values triggers os db)
          (operate_at_once L keys values triggers os db)
  unfolding operate_at_once applied
  operate_at_once-Agree P fines os db = Agree-from P fines os [] db db refl
