-- ===== src/Mdb.antt =====
-- mdb.hpp: the operations of Mdb inside a transaction and in one of their own, the triggers, and the
-- iterators. LMDB is a parameter: a record of operations on the state that a transaction sees.
pub mod Outcomes
pub mod Cut
pub mod Index
pub mod Visit
pub mod Iterators
pub mod Walk
pub mod InMemory
pub mod Laws
pub mod Tests
use libglim.Base.{
  ℕ, zero, suc, ◌+◌, ◌≡◌, Bool, true, false, not, ◌&&◌, ◌||◌, Option, none, some, List, [], ◌∷◌,
  ◌++◌, length, ◌==◌, if◌then◌else◌,
}
use libglim.Compare.{less_than}
use libglim.Itoa.{codes}

-- What a call of LMDB returns: 0, MDB_NOTFOUND or any other code.
pub data Code : Type 0 where
  success missing failed : Code

-- What mdb_cursor_get returns: the cursor with the key and the value it stands at.
pub data Fetch (C : Type 0) : Type 0 where
  fetched : C → List ℕ → List ℕ → Fetch C
  no_more : Fetch C
  fetch_failed : Fetch C

-- LMDB, with databases that have numbers. A transaction that is begun sees the state of the environment;
-- to abort it is to go on with the state before.
pub record Lmdb (T C : Type 0) : Type 0 where
  pub txn_begin : T → Option T
  -- The transaction's state and the environment's.
  pub txn_commit : T → T → Code × T
  pub put : ℕ → List ℕ → List ℕ → T → Code × T
  pub get : ℕ → List ℕ → T → Code × List ℕ
  -- mdb_del of one value, or of all of them.
  pub del : ℕ → List ℕ → Option (List ℕ) → T → Code × T
  pub cursor_open : ℕ → T → Option C
  pub set_key : C → List ℕ → T → Fetch C
  pub first_entry : C → T → Fetch C
  pub last_entry : C → T → Fetch C
  pub next_dup : C → T → Fetch C
  pub prev_dup : C → T → Fetch C
  pub next_entry : C → T → Fetch C
  pub prev_entry : C → T → Fetch C

-- A call returns and leaves a state, throws, or is not over after the rounds it was given.
pub data Outcome (T A : Type 0) : Type 0 where
  returned : A → T → Outcome T A
  thrown : Outcome T A
  unfinished : Outcome T A

-- What runs inside a transaction.
abbrev pub InTxn : Type 0 → Type 0 → Type 0
InTxn T A = T → Outcome T A

abbrev pub and_then : {T A B : Type 0} → Outcome T A → (A → InTxn T B) → Outcome T B
and_then (returned a t) f = f a t
and_then thrown f = thrown
and_then unfinished f = unfinished

infixl 5 ◌>>=◌ ◌>>◌
abbrev pub ◌>>=◌ : {T A B : Type 0} → InTxn T A → (A → InTxn T B) → InTxn T B
◌>>=◌ m f t = and_then (m t) f

abbrev pub ◌>>◌ : {T B : Type 0} → InTxn T (Unit {0}) → InTxn T B → InTxn T B
m >> k = m >>= λ _. k

-- mdbSerialize and mdbDeserialize, which may throw.
pub record Format (A : Type 0) : Type 0 where
  pub serialize : A → List ℕ
  pub deserialize : List ℕ → Option A

-- `if (rc) throw`
abbrev pub checked : {T : Type 0} → Code × T → Outcome T (Unit {0})
checked (success, t) = returned tt t
checked (missing, t) = thrown
checked (failed, t) = thrown

-- `if (rc && rc != MDB_NOTFOUND) throw`
abbrev pub checked_del : {T : Type 0} → Code × T → Outcome T (Unit {0})
checked_del (success, t) = returned tt t
checked_del (missing, t) = returned tt t
checked_del (failed, t) = thrown

-- `if (rc == MDB_NOTFOUND) return false; if (rc) throw; return true`
abbrev pub found_or_thrown : {T : Type 0} → Code × T → Outcome T Bool
found_or_thrown (success, t) = returned true t
found_or_thrown (missing, t) = returned false t
found_or_thrown (failed, t) = thrown

-- Mdb::Trigger: what it does with the serialized key and value.
pub record Trigger (T : Type 0) : Type 0 where
  pub name : List ℕ
  pub add : List ℕ → List ℕ → InTxn T (Unit {0})
  pub erase : List ℕ → InTxn T (Unit {0})
  pub erase_kv : List ℕ → List ℕ → InTxn T (Unit {0})

-- setTrigger: a std::map by the operator < of the names.
unfoldable pub set_trigger : {T : Type 0} → Trigger T → List (Trigger T) → List (Trigger T)
set_trigger new [] = new ∷ []
set_trigger new (old ∷ rest) =
    let after = set_trigger new rest in
    if less_than new.name old.name
    then new ∷ old ∷ rest
    else if less_than old.name new.name
    then old ∷ after
    else record new { name = old.name } ∷ rest

-- The loop over the triggers.
unfoldable pub each_trigger :
    {T : Type 0} → (Trigger T → InTxn T (Unit {0})) → List (Trigger T) → InTxn T (Unit {0})
each_trigger call [] t = returned tt t
each_trigger call (trigger ∷ rest) t = and_then (call trigger t) (λ _. each_trigger call rest)

-- getTriggerName of the base class. The one of SimpleIndexTrigger is not const, so that it does not
-- override it.
abbrev pub default_name : List ℕ
default_name = codes "defaultTriggerName"

-- An Mdb: its database and its triggers.
pub record Mdb (T : Type 0) : Type 0 where
  pub dbi : ℕ
  pub triggers : List (Trigger T)

module _ {T C : Type 0} (L : Lmdb T C) where
  module _ {K V : Type 0} (keys : Format K) (values : Format V) where
    -- add (key, value, txn)
    unfoldable pub add : Mdb T → K → V → InTxn T (Unit {0})
    add m key value = do
      each_trigger (λ trigger. trigger.add (keys.serialize key) (values.serialize value)) m.triggers
      λ t. checked (L.put m.dbi (keys.serialize key) (values.serialize value) t)

    abbrev first_found : Code × List ℕ → InTxn T (Option V)
    first_found (success, bytes) t = elim (values.deserialize bytes) [
      | none ↦ thrown
      | some value ↦ returned (some value) t
    ]
    first_found (missing, bytes) t = returned none t
    first_found (failed, bytes) t = thrown

    -- first (key, value, txn): none if the key is not found.
    unfoldable pub first : Mdb T → K → InTxn T (Option V)
    first m key t = first_found (L.get m.dbi (keys.serialize key) t) t

    -- eraseKV (key, value, txn)
    unfoldable pub erase_kv : Mdb T → K → V → InTxn T Bool
    erase_kv m key value t =
        if length (keys.serialize key) == 0
        then thrown
        else and_then
            (each_trigger
              (λ trigger. trigger.erase_kv (keys.serialize key) (values.serialize value)) m.triggers
              t)
            (λ _ t'.
              found_or_thrown (L.del m.dbi (keys.serialize key) (some (values.serialize value)) t'))

    -- erase (key, txn)
    unfoldable pub erase : Mdb T → K → InTxn T Bool
    erase m key t =
        if length (keys.serialize key) == 0
        then thrown
        else and_then (each_trigger (λ trigger. trigger.erase (keys.serialize key)) m.triggers t)
            (λ _ t'. found_or_thrown (L.del m.dbi (keys.serialize key) none t'))

    -- The loop of `all`, at a cursor and its value: the values that were visited. The visitor sees one
    -- value after the other; `rounds` bounds the number of values.
    unfoldable pub all_from : ℕ → (V → Bool) → C → List ℕ → InTxn T (List V)
    all_from zero visitor c bytes t = unfinished
    all_from (suc rounds) visitor c bytes t = elim (values.deserialize bytes) [
      | none ↦ thrown
      | some value ↦ elim (visitor value) [
        | false ↦ returned (value ∷ []) t
        | true ↦ elim (L.next_dup c t) [
          | no_more ↦ returned (value ∷ []) t
          | fetch_failed ↦ thrown
          | fetched c' key more ↦
              and_then (all_from rounds visitor c' more t) (λ seen. returned (value ∷ seen))
        ]
      ]
    ]

    -- all (key, visitor, txn): the values visited, and their number as an int32_t.
    unfoldable pub all : ℕ → Mdb T → K → (V → Bool) → InTxn T (List V × ℕ)
    all rounds m key visitor t = elim (L.cursor_open m.dbi t) [
      | none ↦ thrown
      | some c ↦ elim (L.set_key c (keys.serialize key) t) [
        | no_more ↦ returned ([], 0) t
        | fetch_failed ↦ thrown
        | fetched c' found bytes ↦
            and_then (all_from rounds visitor c' bytes t) (λ seen. returned (seen, length seen))
      ]
    ]

  -- commitTransaction, after which there is nothing to abort.
  abbrev pub committed : {A : Type 0} → A → Code × T → Outcome (Unit {0}) A × T
  committed a (success, env) = (returned a tt, env)
  committed a (missing, env) = (thrown, env)
  committed a (failed, env) = (thrown, env)

  abbrev pub ended : {A : Type 0} → T → Outcome T A → Outcome (Unit {0}) A × T
  ended env (returned a t) = committed a (L.txn_commit t env)
  ended env thrown = (thrown, env)
  ended env unfinished = (unfinished, env)

  -- beginTransaction, the body and commitTransaction, with the state of the environment after the call.
  -- A transaction that is not committed is aborted.
  unfoldable pub in_transaction : {A : Type 0} → InTxn T A → T → Outcome (Unit {0}) A × T
  in_transaction body env = elim (L.txn_begin env) [
    | none ↦ (thrown, env)
    | some t ↦ ended env (body t)
  ]

  module _ {K V : Type 0} (keys : Format K) (values : Format V) where
    -- The same operations in a transaction of their own; `first` and `all` begin it with MDB_RDONLY.
    unfoldable pub add_now : Mdb T → K → V → T → Outcome (Unit {0}) (Unit {0}) × T
    add_now m key value = in_transaction (add keys values m key value)

    unfoldable pub first_now : Mdb T → K → T → Outcome (Unit {0}) (Option V) × T
    first_now m key = in_transaction (first keys values m key)

    unfoldable pub all_now : ℕ → Mdb T → K → (V → Bool) → T → Outcome (Unit {0}) (List V × ℕ) × T
    all_now rounds m key visitor = in_transaction (all keys values rounds m key visitor)

    unfoldable pub erase_kv_now : Mdb T → K → V → T → Outcome (Unit {0}) Bool × T
    erase_kv_now m key value = in_transaction (erase_kv keys values m key value)

    unfoldable pub erase_now : Mdb T → K → T → Outcome (Unit {0}) Bool × T
    erase_now m key = in_transaction (erase keys values m key)

  -- SimpleIndexTrigger, on the database `main` with the index `index`.
  module _ (main index : ℕ) where
    -- The loop of SimpleIndexTrigger::erase, at a cursor and its value.
    unfoldable pub erase_indexed : ℕ → List ℕ → C → List ℕ → InTxn T (Unit {0})
    erase_indexed zero key c value t = unfinished
    erase_indexed (suc rounds) key c value t =
        and_then (checked_del (L.del index value (some key) t)) (λ _ t'. elim (L.next_dup c t') [
          | no_more ↦ returned tt t'
          | fetch_failed ↦ thrown
          | fetched c' found more ↦ erase_indexed rounds found c' more t'
        ])

    unfoldable pub index_erase : ℕ → List ℕ → InTxn T (Unit {0})
    index_erase rounds key t = elim (L.cursor_open main t) [
      | none ↦ thrown
      | some c ↦ elim (L.set_key c key t) [
        | no_more ↦ returned tt t
        | fetch_failed ↦ thrown
        | fetched c' found value ↦ erase_indexed rounds found c' value t
      ]
    ]

    unfoldable pub index_trigger : ℕ → Trigger T
    index_trigger rounds = record {
      name = default_name;
      add = λ key value t. checked (L.put index value key t);
      erase = index_erase rounds;
      erase_kv = λ key value t. checked_del (L.del index value (some key) t);
    }
