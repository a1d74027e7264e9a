-- ===== src/Mdb/Iterators.antt =====
-- mdb.hpp: Mdb::Iterator, and how an environment and a database are opened.
use libglim.Base.{
  ℕ, ◌*◌, Bool, false, ◌&&◌, Option, none, some, List, [], ◌∷◌, ltb, ◌==◌, if◌then◌else◌, length,
}
use libglim.Compare.{equals}
use libglim.Mdb.{Fetch, fetched, no_more, fetch_failed, Lmdb}

-- An Iterator with its entry. `cursor` is none for the end iterator, which opens no transaction.
pub record Iterator (C : Type 0) : Type 0 where
  pub cursor : Option C
  pub key : List ℕ
  pub value : List ℕ
  pub stay_in_key : Bool

abbrev pub placed : {C : Type 0} → Iterator C → C → List ℕ → List ℕ → Iterator C
placed it c key value = record it { cursor = some c; key = key; value = value }

-- `_entry._key = {0, 0}; _entry._val = {0, 0}`
abbrev pub nowhere : {C : Type 0} → Iterator C → Iterator C
nowhere it = record it { key = []; value = [] }

-- Iterator::end
unfoldable pub at_end : {C : Type 0} → Iterator C → Bool
at_end it = length it.key == 0

-- Mdb::end
abbrev pub end_iterator : {C : Type 0} → Iterator C
end_iterator = record { cursor = none; key = []; value = []; stay_in_key = false }

-- MDB_FIRST, MDB_LAST or another position.
pub data Position : Type 0 where
  first last other : Position

module _ {T C : Type 0} (L : Lmdb T C) where
  abbrev new_iterator : C → Bool → Iterator C
  new_iterator c stay = record { cursor = some c; key = []; value = []; stay_in_key = stay }

  abbrev or_throw : C → Fetch C → Option (Iterator C)
  or_throw c (fetched c' key value) = some (placed (new_iterator c false) c' key value)
  or_throw c no_more = none
  or_throw c fetch_failed = none

  abbrev fetch_position : C → T → Position → Option (Iterator C)
  fetch_position c t first = or_throw c (L.first_entry c t)
  fetch_position c t last = or_throw c (L.last_entry c t)
  fetch_position c t other = some (new_iterator c false)

  -- Iterator (mdb, position), in its transaction. none is an exception.
  unfoldable pub at_position : ℕ → Position → T → Option (Iterator C)
  at_position dbi position t = elim (L.cursor_open dbi t) [
    | none ↦ none
    | some c ↦ fetch_position c t position
  ]

  -- Iterator (mdb, key, stayInKey), in its transaction; `values` is this with `stay` true.
  unfoldable pub at_key : ℕ → List ℕ → Bool → T → Option (Iterator C)
  at_key dbi key stay t = elim (L.cursor_open dbi t) [
    | none ↦ none
    | some c ↦ elim (L.set_key c key t) [
      | fetched c' found value ↦ some (placed (new_iterator c stay) c' found value)
      | no_more ↦ some (new_iterator c stay)
      | fetch_failed ↦ none
    ]
  ]

  abbrev moved : Iterator C → Fetch C → Iterator C
  moved it (fetched c key value) = placed it c key value
  moved it no_more = nowhere it
  moved it fetch_failed = nowhere it

  -- Iterator::increment and decrement. Any code but 0 is the end. The end iterator has no cursor: none is
  -- undefined behaviour.
  unfoldable pub increment : Iterator C → T → Option (Iterator C)
  increment it t = elim it.cursor [
    | none ↦ none
    | some c ↦ some (moved it (if it.stay_in_key then L.next_dup c t else L.next_entry c t))
  ]

  unfoldable pub decrement : Iterator C → T → Option (Iterator C)
  decrement it t = elim it.cursor [
    | none ↦ none
    | some c ↦ some (moved it (if it.stay_in_key then L.prev_dup c t else L.prev_entry c t))
  ]

-- Iterator::equal, where mdb_cmp and mdb_dcmp compare bytes. It asks the first iterator's transaction:
-- none is undefined behaviour.
unfoldable pub same_place : {C : Type 0} → Iterator C → Iterator C → Option Bool
same_place it it' = elim it.cursor [
  | none ↦ none
  | some c ↦ some (equals it.key it'.key && equals it.value it'.value)
]

-- The flags of mdb_env_open and mdb_open.
pub data Flag : Type 0 where
  no_subdir no_sync no_meta_sync create dup_sort : Flag

-- Mdb::envFlags
unfoldable pub env_flags : ℕ → List Flag
env_flags sync =
    if ltb sync 1
    then no_subdir ∷ no_sync ∷ []
    else if ltb sync 2
    then no_subdir ∷ no_meta_sync ∷ []
    else no_subdir ∷ []

-- What opening a database asks of LMDB: each call succeeds or fails.
pub record Opening : Type 0 where
  pub env_create : Bool
  pub set_mapsize : ℕ → Bool
  pub set_maxdbs : ℕ → Bool
  pub env_open : List Flag → Bool
  pub txn_begin : Bool
  pub mdb_open : List Flag → Option ℕ
  pub txn_commit : Bool

-- Mdb::open, with dbFlags as it is: the database, or none for an exception.
unfoldable pub open_database : Opening → Bool → Option ℕ
open_database o dup =
    if o.txn_begin
    then elim (o.mdb_open (if dup then create ∷ dup_sort ∷ [] else create ∷ [])) [
      | none ↦ none
      | some dbi ↦ if o.txn_commit then some dbi else none
    ]
    else none

-- Mdb (path, maxSizeMb, dbName, sync, dup, mode). What mdb_env_open returns is not looked at.
unfoldable pub open_path : Opening → ℕ → ℕ → Bool → Option ℕ
open_path o max_size_mb sync dup =
    if o.env_create && o.set_mapsize (max_size_mb * 1024 * 1024) && o.set_maxdbs 32
    then open_database o dup
    else none
