-- ===== src/Mdb/Tests.antt =====
-- A database of numbers with an index, in memory.
use libglim.Base.{ℕ, ◌≡◌, ◌≢◌, refl, true, none, some, [], ◌∷◌, length, arith, ltb}
use libglim.Compare.{equals, memcmp_same}
use libglim.Mdb.{
  Format, Mdb, returned, unfinished, set_trigger, index_trigger, all, add, add_now, in_transaction,
  each_trigger,
}
use libglim.Mdb.Laws.{member}
use libglim.Mdb.InMemory.{Tables, in_memory, in_memory-Dupsort, in_memory-Working, change}
use libglim.Mdb.Cut.{Indexed}
use libglim.Mdb.Index.{adding, erasing, perform, perform-Indexed}
use libglim.Mdb.Iterators.{at_key}
use libglim.Mdb.Walk.{values_of, values_of-dups}
use libglim.Mdb.Visit.{until, all-until}

-- Numbers below 256 as one byte.
abbrev small : Format ℕ
small = record {
  serialize = λ n. n ∷ [];
  deserialize = λ bytes. elim bytes [ [] ↦ none | b ∷ rest ↦ some b ];
}

abbrev no_values : Tables
no_values = λ d k. []

apart : ◌≢◌ {A = ℕ} 1 2
apart = omega arith

no_values-Indexed : Indexed in_memory-Dupsort 1 2 no_values
unfolding in_memory-Dupsort member
no_values-Indexed k v = refl

-- The key 7 with the value 1, and its index.
abbrev one_value : Tables
one_value = (perform in_memory-Dupsort 1 2 apart small small 3 (adding 7 1) no_values).1

one_value-Indexed : Indexed in_memory-Dupsort 1 2 one_value
unfolding in_memory-Dupsort
one_value-Indexed =
    (perform-Indexed in_memory-Dupsort 1 2 apart small small 3 (adding 7 1) no_values
      no_values-Indexed (omega arith)).0

-- The values 1, 2 and 3 of one key.
abbrev three_values : Tables
three_values = λ d k. (1 ∷ []) ∷ (2 ∷ []) ∷ (3 ∷ []) ∷ []

perform-Indexed_example :
    let after = perform in_memory-Dupsort 1 2 apart small small 3 (erasing 7) one_value in
    Indexed in_memory-Dupsort 1 2 after.1 × (after.0 ≢ unfinished)
unfolding in_memory-Dupsort perform add_now add in_transaction each_trigger index_trigger
    set_trigger change equals memcmp_same
perform-Indexed_example =
    perform-Indexed in_memory-Dupsort 1 2 apart small small 3 (erasing 7) one_value
      one_value-Indexed (omega arith)

plain : Mdb Tables
plain = record { dbi = 1; triggers = [] }

all-until_example :
    all in_memory small small 3 plain 7 (λ v. ltb v 2) three_values
    ≡ returned
        (until (λ v. ltb v 2) (1 ∷ 2 ∷ 3 ∷ []), length (until (λ v. ltb v 2) (1 ∷ 2 ∷ 3 ∷ [])))
        three_values
unfolding in_memory-Dupsort
all-until_example =
    all-until in_memory-Dupsort in_memory-Working small small (λ v. ltb v 2) 3 plain 7 three_values
      (1 ∷ 2 ∷ 3 ∷ []) (refl, (refl, (refl, tt))) (omega arith)

values_of-dups_example :
    values_of in_memory 4 (at_key in_memory 1 (7 ∷ []) true three_values) three_values
    ≡ some ((1 ∷ []) ∷ (2 ∷ []) ∷ (3 ∷ []) ∷ [])
unfolding in_memory-Dupsort
values_of-dups_example =
    values_of-dups in_memory-Dupsort in_memory-Working 4 1 (7 ∷ []) three_values
      (λ e. omega (arith, e)) (omega arith)
