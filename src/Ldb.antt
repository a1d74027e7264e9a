-- ===== src/Ldb.antt =====
-- ldb.hpp: uint32_t keys in the order of their bytes, and the iterators over leveldb's. The iterator of
-- leveldb is a parameter: its operations here, what they promise as hypotheses of the theorems.
pub mod Keys
pub mod Prefix
pub mod Store
pub mod Updates
pub mod Batches
pub mod Ranges
pub mod Tests
use mathlib.Core.List.{reverse}
use libglim.Base.{
  ℕ, zero, suc, ◌+◌, ◌-◌, ◌%◌, ◌^◌, ◌≡◌, Bool, true, false, not, ◌&&◌, ◌||◌, Option, none, some,
  List, [], ◌∷◌, ◌++◌, ltb, ◌==◌, if◌then◌else◌, length,
}
use libglim.Compare.{equals}
use libglim.Pool.{network_order, from_network}

-- leveldb::Slice::compare (y) < 0, which compares bytes as unsigned numbers.
unfoldable pub below : List ℕ → List ℕ → Bool
below [] [] = false
below [] (y ∷ ys) = true
below (x ∷ xs) [] = false
below (x ∷ xs) (y ∷ ys) = let rest = below xs ys in ltb x y || x == y && rest

-- leveldb::Slice::starts_with
unfoldable pub starts_with : List ℕ → List ℕ → Bool
starts_with key [] = true
starts_with [] (p ∷ ps) = false
starts_with (k ∷ ks) (p ∷ ps) = let rest = starts_with ks ps in k == p && rest

-- ldbSerialize<uint32_t>, the bytes it adds.
unfoldable pub serialize_uint32 : ℕ → List ℕ
serialize_uint32 ui = network_order ui

-- ldbDeserialize<uint32_t>: none is the exception.
unfoldable pub deserialize_uint32 : List ℕ → Option ℕ
deserialize_uint32 bytes = if length bytes == 4 then some (from_network bytes) else none

-- leveldb::Iterator
pub record LevelIterator (C : Type 0) : Type 0 where
  pub is_valid : C → Bool
  pub key : C → List ℕ
  pub next_entry : C → C
  pub prev_entry : C → C
  pub seek_key : List ℕ → C → C
  pub seek_to_first : C → C
  pub seek_to_last : C → C

-- IteratorEntry
pub record Entry (C : Type 0) : Type 0 where
  pub lit : C
  pub valid : Bool

module _ {C : Type 0} (L : LevelIterator C) where
  unfoldable pub synced : C → Entry C
  synced lit = record { lit = lit; valid = L.is_valid lit }

  -- Iterator::increment, decrement and seek.
  unfoldable pub increment : Entry C → Entry C
  unfolding synced
  increment e = synced (if e.valid then L.next_entry e.lit else L.seek_to_first e.lit)

  unfoldable pub decrement : Entry C → Entry C
  unfolding synced
  decrement e = synced (if e.valid then L.prev_entry e.lit else L.seek_to_last e.lit)

  unfoldable pub seek : List ℕ → Entry C → Entry C
  unfolding synced
  seek key e = synced (L.seek_key key e.lit)

  -- begin () and end (), on a new iterator.
  unfoldable pub iterator_begin : C → Entry C
  unfolding synced
  iterator_begin lit = synced (L.seek_to_first lit)

  unfoldable pub iterator_end : C → Entry C
  iterator_end lit = record { lit = lit; valid = false }

  -- keyView
  unfoldable pub key_view : Entry C → List ℕ
  key_view e = if e.valid then L.key e.lit else []

  -- Iterator::equal
  unfoldable pub equal : Entry C → Entry C → Bool
  equal ours theirs =
      if not ours.valid
      then not theirs.valid
      else if not theirs.valid
      then false
      else equals (L.key ours.lit) (L.key theirs.lit)

  -- range, for the bytes of the keys and a new iterator for either end.
  unfoldable pub range : List ℕ → List ℕ → C → C → Entry C × Entry C
  unfolding seek iterator_end
  range from till fit tit = (seek from (iterator_end fit), seek till (iterator_end tit))

  -- StartsWithIterator::checkValidity
  unfoldable pub check_validity : List ℕ → C → Bool
  check_validity starts lit = L.is_valid lit && starts_with (L.key lit) starts

  abbrev pub checked : List ℕ → C → Entry C
  checked starts lit = record { lit = lit; valid = check_validity starts lit }

  -- The constructor of StartsWithIterator, on a new iterator.
  unfoldable pub starts_begin : List ℕ → C → Entry C
  starts_begin starts lit = checked starts (L.seek_key starts lit)

  -- StartsWithIterator::increment
  unfoldable pub starts_increment : List ℕ → Entry C → Entry C
  starts_increment starts e =
      checked starts (if e.valid then L.next_entry e.lit else L.seek_key starts e.lit)

  -- The loop of seekLast that goes back to the prefix; `rounds` bounds the number of entries.
  unfoldable pub seek_back : ℕ → List ℕ → C → C
  seek_back zero starts lit = lit
  seek_back (suc rounds) starts lit =
      let rest = seek_back rounds starts (L.prev_entry lit) in
      if L.is_valid lit && not (starts_with (L.key lit) starts) && not (below (L.key lit) starts)
      then rest
      else lit

-- The loop over `after` in seekLast, on the bytes from the last one on. A char is signed: every byte but
-- 127 is below CHAR_MAX. The position is unsigned, so that without such a byte the loop leaves the
-- array: none.
unfoldable pub bump : List ℕ → Option (List ℕ)
bump [] = none
bump (c ∷ cs) =
    let rest = bump cs in if c == 127 then with_byte c rest else some ((c + 1) % 256 ∷ cs)
  where
    with_byte : ℕ → Option (List ℕ) → Option (List ℕ)
    with_byte c none = none
    with_byte c (some bytes) = some (c ∷ bytes)

abbrev turned : Option (List ℕ) → Option (List ℕ)
turned none = none
turned (some xs) = some (reverse xs)

-- The key that seekLast seeks to.
unfoldable pub after_prefix : List ℕ → Option (List ℕ)
unfolding bump
after_prefix starts = turned (bump (reverse starts))

module _ {C : Type 0} (L : LevelIterator C) where
  abbrev or_last : C → C
  or_last lit = if L.is_valid lit then lit else L.seek_to_last lit

  -- seekLast
  unfoldable pub seek_last : ℕ → List ℕ → C → Option C
  seek_last rounds starts lit =
      if length starts == 0
      then some (seek_back L rounds starts (L.seek_to_last lit))
      else elim (after_prefix starts) [
        | none ↦ none
        | some after ↦ some (seek_back L rounds starts (or_last (L.seek_key after lit)))
      ]

  -- StartsWithIterator::decrement
  unfoldable pub starts_decrement : ℕ → List ℕ → Entry C → Option (Entry C)
  unfolding seek_last
  starts_decrement rounds starts e =
      if e.valid
      then some (checked L starts (L.prev_entry e.lit))
      else elim (seek_last rounds starts e.lit) [
        | none ↦ none
        | some lit ↦ some (checked L starts lit)
      ]
