-- ===== src/Ldb/Store.antt =====
-- ldb.hpp: put, get, have, del and write, with the batches and the triggers. leveldb is a parameter: a
-- record of operations on its state. A key and a value are given by the bytes that ldbSerialize makes.
use libglim.Base.{
  ℕ, Bool, true, false, Option, none, some, List, [], ◌∷◌, ◌++◌, length, ◌==◌, if◌then◌else◌,
}
use libglim.Compare.{less_than}
use libglim.Ldb.{serialize_uint32, deserialize_uint32}

-- leveldb::Status
pub data Status : Type 0 where
  fine not_found corrupt : Status

-- leveldb::WriteBatch: its updates, the first one first.
pub data Update : Type 0 where
  put_update : List ℕ → List ℕ → Update
  delete_update : List ℕ → Update

abbrev pub Batch : Type 0
Batch = List Update

-- leveldb::DB
pub record Level (D : Type 0) : Type 0 where
  pub write : Batch → D → Status × D
  pub get : List ℕ → D → Status × List ℕ

-- A call returns or throws, and leaves a state.
pub data Outcome (S A : Type 0) : Type 0 where
  returned : A → S → Outcome S A
  thrown : S → Outcome S A

abbrev pub and_then : {S A B : Type 0} → Outcome S A → (A → S → Outcome S B) → Outcome S B
and_then (returned a s) f = f a s
and_then (thrown s) f = thrown s

-- ldbSerialize and ldbDeserialize, which may throw.
pub record Serial (A : Type 0) : Type 0 where
  pub serialize : A → List ℕ
  pub deserialize : List ℕ → Option A

-- ldbSerialize<gstring> and ldbDeserialize<gstring>
abbrev pub gstring_serial : Serial (List ℕ)
gstring_serial = record { serialize = λ text. text; deserialize = λ bytes. some bytes }

abbrev pub uint32_serial : Serial ℕ
uint32_serial = record { serialize = serialize_uint32; deserialize = deserialize_uint32 }

-- What a trigger is given, and may change: the database, the bytes and the batch.
pub record Slots (D : Type 0) : Type 0 where
  pub db : D
  pub kbytes : List ℕ
  pub vbytes : List ℕ
  pub batch : Batch

-- Ldb::Trigger
pub record Trigger (D K V : Type 0) : Type 0 where
  pub trigger_name : List ℕ
  pub on_put : K → V → Slots D → Outcome (Slots D) (Unit {0})
  pub on_del : K → Slots D → Outcome (Slots D) (Unit {0})

-- Ldb::_triggers: a std::map by the operator < of the names, from its first entry on.
abbrev pub Triggers : Type 0 → Type 0 → Type 0 → Type 0
Triggers D K V = List (List ℕ × Trigger D K V)

-- _triggers[name] = trigger
unfoldable pub put_at : {D K V : Type 0} → List ℕ → Trigger D K V → Triggers D K V → Triggers D K V
put_at name new [] = (name, new) ∷ []
put_at name new ((key, old) ∷ rest) =
    let after = put_at name new rest in
    if less_than name key
    then (name, new) ∷ (key, old) ∷ rest
    else if less_than key name
    then (key, old) ∷ after
    else (key, new) ∷ rest

-- putTrigger
unfoldable pub put_trigger : {D K V : Type 0} → Trigger D K V → Triggers D K V → Triggers D K V
unfolding put_at
put_trigger trigger triggers = put_at trigger.trigger_name trigger triggers

-- The loop over the triggers.
unfoldable pub each_trigger :
    {D K V : Type 0}
    → (Trigger D K V → Slots D → Outcome (Slots D) (Unit {0}))
    → Triggers D K V
    → Slots D
    → Outcome (Slots D) (Unit {0})
each_trigger call [] s = returned tt s
each_trigger call ((name, trigger) ∷ rest) s =
    and_then (call trigger s) (λ _. each_trigger call rest)

module _ {D : Type 0} (L : Level D) where
  abbrev checked : Status × D → Outcome D (Unit {0})
  checked (fine, db) = returned tt db
  checked (not_found, db) = thrown db
  checked (corrupt, db) = thrown db

  -- write (batch), and the last steps of put and del.
  unfoldable pub write : Batch → D → Outcome D (Unit {0})
  write batch db = checked (L.write batch db)

  -- What put and del do with the batch of their own.
  abbrev pub written : Outcome (Slots D) (Unit {0}) → Outcome D (Unit {0})
  written (returned done s) = write s.batch s.db
  written (thrown s) = thrown s.db

  module _ {K V : Type 0} (keys : Serial K) (values : Serial V) (triggers : Triggers D K V) where
    -- put (key, value, batch)
    unfoldable pub put_batch : K → V → Batch → D → Outcome (Slots D) (Unit {0})
    unfolding each_trigger
    put_batch key value batch db =
        and_then
          (each_trigger (λ trigger. trigger.on_put key value) triggers
            (record {
              db = db;
              kbytes = keys.serialize key;
              vbytes = values.serialize value;
              batch = batch;
            }))
          (λ _ s. returned tt (record s { batch = s.batch ++ put_update s.kbytes s.vbytes ∷ [] }))

    -- put (key, value)
    unfoldable pub put : K → V → D → Outcome D (Unit {0})
    unfolding put_batch write
    put key value db = written (put_batch key value [] db)

    -- del (key, batch)
    unfoldable pub del_batch : K → Batch → D → Outcome (Slots D) (Unit {0})
    unfolding each_trigger
    del_batch key batch db =
        let start : Slots D = record {
          db = db;
          kbytes = keys.serialize key;
          vbytes = [];
          batch = batch;
        } in
        if length (keys.serialize key) == 0
        then thrown start
        else and_then (each_trigger (λ trigger. trigger.on_del key) triggers start)
            (λ _ s. returned tt (record s { batch = s.batch ++ delete_update s.kbytes ∷ [] }))

    -- del (key)
    unfoldable pub del : K → D → Outcome D (Unit {0})
    unfolding del_batch write
    del key db = written (del_batch key [] db)

  abbrev have_status : D → Status × List ℕ → Outcome D Bool
  have_status db (fine, bytes) = returned true db
  have_status db (not_found, bytes) = returned false db
  have_status db (corrupt, bytes) = thrown db

  -- have (key)
  unfoldable pub have : {K : Type 0} → Serial K → K → D → Outcome D Bool
  have keys key db = have_status db (L.get (keys.serialize key) db)

  abbrev get_status : {V : Type 0} → Serial V → D → Status × List ℕ → Outcome D (Option V)
  get_status values db (fine, bytes) = elim (values.deserialize bytes) [
    | none ↦ thrown db
    | some value ↦ returned (some value) db
  ]
  get_status values db (not_found, bytes) = returned none db
  get_status values db (corrupt, bytes) = thrown db

  -- get (key, value): none if the key is not found.
  unfoldable pub get : {K V : Type 0} → Serial K → Serial V → K → D → Outcome D (Option V)
  get keys values key db = get_status values db (L.get (keys.serialize key) db)
