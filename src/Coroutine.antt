-- ===== src/Coroutine.antt =====
-- cbcoro.hpp: the stacks of CBCoro and the cache of the free ones, for one size of stacks. A coroutine
-- takes a stack when it is constructed and gives it back when it is destroyed, both under the mutex of
-- the cache, in any order.
pub mod Stacks
pub mod Control
pub mod Turns
pub mod Tests
use libglim.Base.{
  ℕ, ◌≤◌, ◌≡◌, Bool, ◌&&◌, Option, none, some, List, [], ◌∷◌, ◌++◌, ltb, ◌==◌, if◌then◌else◌,
  length,
}

-- The free list of the cache, and the stacks that coroutines hold.
pub record StackPool : Type 0 where
  pub free : List ℕ
  pub used : List ℕ

abbrev pub no_stacks : StackPool
no_stacks = record { free = []; used = [] }

-- mmap, which gives an address or fails, and whether munmap succeeds.
pub record System : Type 0 where
  pub mmap : StackPool → Option ℕ
  pub munmap : ℕ → Bool

-- A stack from mmap, beside the free list.
abbrev pub mapped : Option ℕ → List ℕ → Option (ℕ × List ℕ)
mapped none free = none
mapped (some stack) free = some (stack, free)

module _ (sys : System) where
  -- allocateStack of a coroutine with `_cacheStack`: the stack and the free list. none is an exception.
  unfoldable pub allocate_stack : ℕ → StackPool → Option (ℕ × List ℕ)
  allocate_stack cache_stack m =
      if cache_stack == 0
      then mapped (sys.mmap m) m.free
      else elim (m.free) [ [] ↦ mapped (sys.mmap m) m.free | front ∷ rest ↦ some (front, rest) ]

  -- freeStack: the free list. none is an exception.
  unfoldable pub free_stack : ℕ → ℕ → List ℕ → Option (List ℕ)
  free_stack cache_stack stack free =
      if ltb 0 cache_stack && ltb (length free) cache_stack
      then some (stack ∷ free)
      else if sys.munmap stack
      then some free
      else none

  -- The constructor and the destructor of coroutines that cache `most` stacks at most.
  pub data Event (most : ℕ) (m : StackPool) : StackPool → Type 0 where
    construct :
        (cache_stack stack : ℕ) (free : List ℕ)
        → cache_stack ≤ most
        → allocate_stack cache_stack m ≡ some (stack, free)
        → Event most m (record { free = free; used = stack ∷ m.used })
    destroy :
        (cache_stack stack : ℕ) (free before after : List ℕ)
        → cache_stack ≤ most
        → m.used ≡ before ++ stack ∷ after
        → free_stack cache_stack stack m.free ≡ some free
        → Event most m (record { free = free; used = before ++ after })

  pub data Happens (most : ℕ) : StackPool → Type 0 where
    start : Happens most no_stacks
    next : (m n : StackPool) → Happens most m → Event most m n → Happens most n
