-- ===== src/Gstring/Valid.antt =====
-- When a string's pointer, length and capacity agree with the memory, and what the string holds.
use libglim.Base
use libglim.Base.{
  ℕ, ◌+◌, ◌^◌, ◌≤◌, ◌<◌, ◌≡◌, ◌≢◌, true, ◌⊎◌, Option, none, some, List, [], arith, get_elem?, slice,
}
use libglim.Memory.{Memory, Block, Ptr, is_live, is_malloced, bytes_at}
use libglim.Gstring.{Gstring, needs_freeing, power, length}
use libglim.Gstring.Object.{State, Run, Cmd, and_then, done, throws, fault}

-- The bytes of the string.
unfoldable pub contents : Gstring → Memory → List ℕ
contents g m = elim g.buf [ none ↦ [] | some p ↦ slice (bytes_at m p.block) p.offset (length g) ]

-- The string `g` lies in the block `b` at `p`: its length and its capacity (where it claims one) fit
-- the block, and it owns only what `malloc` made.
pub record Held (g : Gstring) (m : Memory) (p : Ptr) (b : Block) : Type 0 where
  pub word : g.meta < 2 ^ 32
  pub small : power g ≤ 24
  pub ptr : g.buf ≡ some p
  pub at : get_elem? m.blocks p.block ≡ some b
  pub live : is_live b ≡ true
  pub in_length : p.offset + length g ≤ Base.length b.bytes
  pub in_capacity : (power g ≡ 0) ⊎ (p.offset + 2 ^ power g ≤ Base.length b.bytes)
  pub owner : needs_freeing g ≡ true → (is_malloced b ≡ true) × (p.offset ≡ 0)

-- A string with no buffer, or one that lies in a block.
pub data IsValid (g : Gstring) (m : Memory) : Type 0 where
  blank : g.meta < 2 ^ 32 → g.buf ≡ none → power g ≡ 0 → length g ≡ 0 → IsValid g m
  holds : (p : Ptr) (b : Block) → Held g m p b → IsValid g m

-- Whether `p` points into the block `i`.
abbrev pub Within : Option Ptr → ℕ → Type 0
Within none i = ⊥
Within (some p) i = p.block ≡ i

-- `n` keeps every block of `m`, except for one that the string `g` owned.
abbrev pub Keeps : Gstring → Memory → Memory → Type 0
Keeps g m n =
    (i : ℕ)
    → i < Base.length m.blocks
    → ¬ Within g.buf i
    → get_elem? n.blocks i ≡ get_elem? m.blocks i

-- The command ends normally, in a state with the property.
abbrev pub Returns : {A : Type 0} → (A → State → Type 0) → Run A → Type 0
Returns P (done a s) = P a s
Returns P (throws e s) = ⊥
Returns P fault = ⊥

pub Returns-mono :
    {A : Type 0} (P Q : A → State → Type 0) (r : Run A)
    → ((a : A) (s : State) → P a s → Q a s)
    → Returns P r
    → Returns Q r
Returns-mono P Q (done a s) f h = f a s h
Returns-mono P Q (throws e s) f h = elim h [ ]
Returns-mono P Q fault f h = elim h [ ]

-- One command after another.
pub Returns-bind :
    {A B : Type 0} (P : A → State → Type 0) (Q : B → State → Type 0) (r : Run A) (k : A → Cmd B)
    → Returns P r
    → ((a : A) (s : State) → P a s → Returns Q (k a s))
    → Returns Q (and_then r k)
Returns-bind P Q (done a s) k h f = f a s h
Returns-bind P Q (throws e s) k h f = elim h [ ]
Returns-bind P Q fault k h f = elim h [ ]

pub IsValid-small : (g : Gstring) (m : Memory) → IsValid g m → power g ≤ 24
IsValid-small g m (blank w e p l) = omega arith
IsValid-small g m (holds p b h) = h.small
