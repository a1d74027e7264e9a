-- ===== src/Memory.antt =====
-- The C++ heap as the strings of gstring.hpp use it: blocks that `malloc` made, blocks of others (stack
-- arrays, literals), and the faults (undefined behaviour) of a wrong access or a wrong `free`.
pub mod Laws
use libglim.Base.{
  ℕ, suc, ◌+◌, ◌≡◌, Bool, true, false, ◌&&◌, Option, none, some, List, [], ◌∷◌, ◌++◌, length,
  get_elem?, set, replicate, slice, splice, min, take, leb, ltb, ◌==◌, if◌then◌else◌,
}

pub data Status : Type 0 where
  malloced foreign freed : Status

pub record Block : Type 0 where
  pub status : Status
  pub bytes : List ℕ

pub record Ptr : Type 0 where
  pub block : ℕ
  pub offset : ℕ

-- `largest` is the largest request that `malloc` grants; `junk` is what fresh memory holds.
pub record Memory : Type 0 where
  pub blocks : List Block
  pub largest : ℕ
  pub junk : ℕ

abbrev pub is_live : Block → Bool
is_live b = elim b.status [ freed ↦ false | _ ↦ true ]

abbrev pub is_malloced : Block → Bool
is_malloced b = elim b.status [ malloced ↦ true | _ ↦ false ]

-- The bytes of a block, none if there is no such block.
abbrev bytes_of : Option Block → List ℕ
bytes_of none = []
bytes_of (some b) = b.bytes

unfoldable pub bytes_at : Memory → ℕ → List ℕ
bytes_at m i = bytes_of (get_elem? m.blocks i)

abbrev with_block : Memory → ℕ → Block → Memory
with_block m i b = record m { blocks = set m.blocks i b }

-- `none` is NULL.
unfoldable pub malloc : ℕ → Memory → Option Ptr × Memory
malloc n m = if ltb m.largest n then (none, m) else (
  some (record { block = length m.blocks; offset = 0 }),
  record m { blocks = m.blocks ++ record { status = malloced; bytes = replicate n m.junk } ∷ [] },
)

-- `none` is a fault: no start of a live block that `malloc` made.
unfoldable pub free : Ptr → Memory → Option Memory
free p m = elim (get_elem? m.blocks p.block) [
  | none ↦ none
  | some b ↦
      if is_malloced b && p.offset == 0
      then some (with_block m p.block (record b { status = freed }))
      else none
]

-- The `n` bytes at `p`; `none` is a fault.
unfoldable pub read : Memory → Ptr → ℕ → Option (List ℕ)
read m p n = elim (get_elem? m.blocks p.block) [
  | none ↦ none
  | some b ↦
      if is_live b && leb (p.offset + n) (length b.bytes)
      then some (slice b.bytes p.offset n)
      else none
]

unfoldable pub write : Ptr → List ℕ → Memory → Option Memory
write p ys m = elim (get_elem? m.blocks p.block) [
  | none ↦ none
  | some b ↦
      if is_live b && leb (p.offset + length ys) (length b.bytes)
      then some (with_block m p.block (record b { bytes = splice b.bytes p.offset ys }))
      else none
]

-- The new block holds the old bytes as far as it goes, and junk behind them.
abbrev pub resized : List ℕ → ℕ → ℕ → List ℕ
resized xs n junk = take n (xs ++ replicate n junk)

-- `realloc` is taken to move the block; when it fails, the old block stays.
unfoldable pub realloc : Ptr → ℕ → Memory → Option (Option Ptr × Memory)
realloc p n m = elim (get_elem? m.blocks p.block) [
  | none ↦ none
  | some b ↦
      if is_malloced b && p.offset == 0
      then if ltb m.largest n
        then some (none, m)
        else some (
          some (record { block = length m.blocks; offset = 0 }),
          record m {
            blocks =
                set m.blocks p.block (record b { status = freed })
                ++ record { status = malloced; bytes = resized b.bytes n m.junk } ∷ [];
          },
        )
      else none
]
