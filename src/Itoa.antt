-- ===== src/Itoa.antt =====
-- gstring.hpp, `itoa`: the decimal and other numerals of an int64_t. The characters are collected from
-- the lowest digit up, and turned round at the end (the swapping loop is `reverse`).
pub mod Numeral
pub mod Length
pub mod Tests
use Prim.Native.Char.{code}
use Prim.Native.String.{String}
use mathlib.Core.List.{reverse}
use libglim.Base.{
  ℕ, zero, suc, ◌+◌, ◌-◌, ◌/◌, ◌%◌, ◌≡◌, refl, Bool, true, false, ◌||◌, List, [], ◌∷◌, ◌++◌, ltb,
  ◌==◌, if◌then◌else◌, get_or,
}
use libglim.Base.Int.{ℤ, pos, negsuc}

-- The code points of a literal.
abbrev pub codes : String → List ℕ
codes String.[] = []
codes (String.◌∷◌ c s) = code c ∷ codes s

abbrev pub table : List ℕ
table = codes "zyxwvutsrqponmlkjihgfedcba9876543210123456789abcdefghijklmnopqrstuvwxyz"

-- table[i]
unfoldable pub char_at : ℕ → ℕ
char_at i = get_or table i 0

-- -n
abbrev pub opposite : ℕ → ℤ
opposite zero = pos 0
opposite (suc n) = negsuc n

-- value / base, which rounds towards zero.
abbrev pub quotient : ℤ → ℕ → ℤ
quotient (pos n) base = pos (n / base)
quotient (negsuc n) base = opposite (suc n / base)

-- 35 + (tmp_value - value * base)
abbrev pub index : ℤ → ℕ → ℕ
index (pos n) base = 35 + n % base
index (negsuc n) base = 35 - suc n % base

abbrev pub is_zero : ℤ → Bool
is_zero (pos zero) = true
is_zero (pos (suc n)) = false
is_zero (negsuc n) = false

abbrev pub is_negative : ℤ → Bool
is_negative (pos n) = false
is_negative (negsuc n) = true

-- The do-while loop; it ends with the characters and the last `tmp_value`.
unfoldable pub loop : ℕ → ℤ → ℕ → List ℕ → List ℕ × ℤ
loop zero value base out = (out, value)
loop (suc rounds) value base out =
    let next = quotient value base in
    let out' = out ++ char_at (index value base) ∷ [] in
    let rest = loop rounds next base out' in if is_zero next then (out', value) else rest

abbrev pub signed : List ℕ × ℤ → List ℕ
signed (out, tmp) = if is_negative tmp then out ++ b'-' ∷ [] else out

-- The text before the terminator. 64 rounds are enough for every base.
unfoldable pub itoa : ℤ → ℕ → List ℕ
unfolding loop char_at
itoa value base = if ltb base 2 || ltb 36 base then [] else reverse (signed (loop 64 value base []))

itoa_int64_min : itoa (negsuc 9223372036854775807) 10 ≡ codes "-9223372036854775808"
unfolding itoa
itoa_int64_min = refl

itoa_hex : itoa (negsuc 254) 16 ≡ codes "-ff"
unfolding itoa
itoa_hex = refl
