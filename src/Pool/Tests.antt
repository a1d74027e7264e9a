-- ===== src/Pool/Tests.antt =====
-- The pool's theorems at a pool of two stored fields of which the first was set anew.
use libglim.Base.{
  ℕ, zero, suc, ◌<◌, ◌≡◌, refl, true, false, List, [], ◌∷◌, ◌++◌, arith, some, slice,
}
use libglim.Itoa.{codes}
use libglim.Pool.{
  Pool, original, pool_size, to_bytes, to_bytes_delta, network_order, current, change_at,
  or_original, verified_changes, same_bytes, uint32_at, bytes_from, nearly_reached, next_offset,
}
use libglim.Pool.Written.{start}
use libglim.Pool.Changes.{Stores, to_bytes-original, to_bytes-drops, to_bytes_delta-merges}

-- "ab" and "c".
abbrev two_fields : List ℕ
two_fields =
    network_order 12
    ++ network_order 12
    ++ network_order 15
    ++ codes "ab"
    ++ 0 ∷ []
    ++ codes "c"
    ++ 0 ∷ []

abbrev edited : Pool
edited = record { bytes = two_fields; changes = some (codes "xyz") ∷ []; read_only = false }

two_fields_read : original two_fields 1 ≡ some (codes "c")
unfolding original uint32_at bytes_from nearly_reached next_offset slice
two_fields_read = refl

abbrev written : ℕ → List ℕ
written i = codes "xyz"

all_written : (i : ℕ) → i < 1 → current edited i ≡ some (written i)
unfolding current
all_written zero h = refl
all_written (suc i) h = absurd (omega arith)

to_bytes-original_example :
    (bytes : List ℕ) × (to_bytes edited ≡ some bytes) × Stores written 1 bytes
to_bytes-original_example = to_bytes-original written edited (omega arith) all_written small
  where
    small : start written 1 1 < 16777216
    small = unfold start in omega arith

to_bytes-drops_example :
    (bytes : List ℕ) × (to_bytes edited ≡ some bytes)
    × (current edited 1 ≡ some (codes "c"))
    × (original bytes 1 ≡ some [])
to_bytes-drops_example =
    to_bytes-drops written edited 1 b'c' [] (omega arith) all_written small (omega arith)
      (omega arith) there
  where
    small : start written 1 1 < 16777216
    small = unfold start in omega arith

    there : current edited 1 ≡ some (codes "c")
    there = unfold current in two_fields_read

abbrev merged : ℕ → List ℕ
merged zero = codes "xyz"
merged (suc i) = codes "c"

all_merged : (i : ℕ) → i < 2 → or_original (change_at edited i) two_fields i ≡ some (merged i)
all_merged zero h = refl
all_merged (suc zero) h = two_fields_read
all_merged (suc (suc i)) h = absurd (omega arith)

to_bytes_delta-merges_example :
    (bytes : List ℕ) × (to_bytes_delta two_fields edited ≡ some (true, bytes))
    × Stores merged 2 bytes
to_bytes_delta-merges_example =
    to_bytes_delta-merges merged two_fields 2 edited differs count all_merged small
  where
    differs : verified_changes edited.changes two_fields 0 ≡ some true
    differs =
        unfold verified_changes original uint32_at bytes_from nearly_reached next_offset slice
          same_bytes in
        refl

    count : pool_size two_fields ≡ some 2
    count = unfold pool_size uint32_at bytes_from slice in refl

    small : start merged 2 2 < 16777216
    small = unfold start in omega arith
