-- ===== src/Gstring.antt =====
-- gstring.hpp: the string object. The control word `_meta` packs two flags, the logarithm of the
-- buffer's size and the length; `_buf` is a pointer into the memory.
pub mod Meta
pub mod Object
pub mod Valid
pub mod Reserve
pub mod Regrown
pub mod Room
pub mod Append
pub mod Numbers
pub mod Copies
pub mod Limits
pub mod Tests
use Prim.Native.Nat.{bit_and, bit_or}
use libglim.Base.{
  ℕ, ◌+◌, ◌-◌, ◌*◌, ◌/◌, ◌%◌, ◌^◌, ◌≡◌, Bool, true, false, not, Option, none, some, ◌==◌,
}
use libglim.Memory.{Ptr}

abbrev pub free_flag : ℕ
free_flag = 0x80000000

abbrev pub ref_flag : ℕ
ref_flag = 0x40000000

abbrev pub capacity_mask : ℕ
capacity_mask = 0x3F000000

abbrev pub length_mask : ℕ
length_mask = 0x00FFFFFF

pub record Gstring : Type 0 where
  pub meta : ℕ
  pub buf : Option Ptr

-- ~mask on a uint32_t.
abbrev complement : ℕ → ℕ
complement mask = 0xFFFFFFFF - mask

-- (uint32_t) b << k
abbrev flag_bit : Bool → ℕ → ℕ
flag_bit true k = 2 ^ k
flag_bit false k = 0

unfoldable pub needs_freeing : Gstring → Bool
needs_freeing g = not (bit_and g.meta free_flag == 0)

unfoldable pub copied_by_reference : Gstring → Bool
copied_by_reference g = not (bit_and g.meta ref_flag == 0)

-- (_meta & CAPACITY_MASK) >> CAPACITY_OFFSET
unfoldable pub power : Gstring → ℕ
power g = bit_and g.meta capacity_mask / 2 ^ 24

unfoldable pub capacity : Gstring → ℕ
capacity g = 2 ^ power g

unfoldable pub length : Gstring → ℕ
length g = bit_and g.meta length_mask

unfoldable pub is_empty : Gstring → Bool
is_empty g = bit_and g.meta length_mask == 0

-- The length setter.
unfoldable pub set_length : ℕ → Gstring → Gstring
set_length len g = record g {
  meta = bit_or (bit_and g.meta (complement length_mask)) (bit_and len length_mask);
}

-- `_meta = (_meta & ~CAPACITY_MASK) | (power << CAPACITY_OFFSET)` of `reserve`.
unfoldable pub set_power : ℕ → Gstring → Gstring
set_power p g = record g { meta = bit_or (bit_and g.meta (complement capacity_mask)) (p * 2 ^ 24) }

-- `_meta |= FREE_FLAG` of `reserve`.
unfoldable pub set_free : Gstring → Gstring
set_free g = record g { meta = bit_or g.meta free_flag }

-- The words that the constructors and the assignment build.
unfoldable pub pack : Bool → Bool → ℕ → ℕ → ℕ
pack free ref p len =
    bit_or (bit_or (bit_or (flag_bit free 31) (flag_bit ref 30)) (p * 2 ^ 24))
      (bit_and len length_mask)
