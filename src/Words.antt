-- ===== src/Words.antt =====
-- `&`, `|` and `<<` on machine words as arithmetic on their fields, at every width.
use Prim.Native.Nat.{bit_and, bit_or, digits, bit_and-bitwise, bit_or-bitwise}
use native.Mathlib.Nat.{pow-suc, one-le-pow}
use libglim.Base.{
  ℕ, zero, suc, ◌+◌, ◌-◌, ◌*◌, ◌/◌, ◌%◌, ◌^◌, ◌≤◌, ◌<◌, min, max, ◌≡◌, refl, sym, ap, ◌∙◌, arith,
}

-- The fuel of `digits` does not matter once it covers the first number.
module _ (tail : ℕ → ℕ) (op : ℕ → ℕ → ℕ) where
  spare : (y x few many : ℕ) → x ≤ few → x ≤ many → digits tail op few x y ≡ digits tail op many x y
  spare y zero zero zero h g = refl
  spare y zero zero (suc many) h g = refl
  spare y zero (suc few) zero h g = refl
  spare y zero (suc few) (suc many) h g = refl
  spare y (suc x) zero many h g = absurd (omega arith)
  spare y (suc x) (suc few) zero h g = absurd (omega arith)
  spare y (suc x) (suc few) (suc many) h g =
      ap (λ (k : ℕ). k * 2 + op (suc x % 2) (y % 2))
        (spare (y / 2) (suc x / 2) few many (omega arith) (omega arith))

-- The lowest digit of `&` and of `|`.
and_digit : (x y : ℕ) → bit_and x y ≡ bit_and (x / 2) (y / 2) * 2 + min (x % 2) (y % 2)
and_digit zero y = omega (arith, bit_and-bitwise 0 y, bit_and-bitwise 0 (y / 2))
and_digit (suc x) y =
    bit_and-bitwise (suc x) y
    ∙ ap (λ (k : ℕ). k * 2 + min (suc x % 2) (y % 2))
        (spare (λ _. zero) min (y / 2) (suc x / 2) x _ (omega arith) (omega arith)
          ∙ sym (bit_and-bitwise (suc x / 2) (y / 2)))

or_digit : (x y : ℕ) → bit_or x y ≡ bit_or (x / 2) (y / 2) * 2 + max (x % 2) (y % 2)
or_digit zero y = omega (arith, bit_or-bitwise 0 y, bit_or-bitwise 0 (y / 2))
or_digit (suc x) y =
    bit_or-bitwise (suc x) y
    ∙ ap (λ (k : ℕ). k * 2 + max (suc x % 2) (y % 2))
        (spare (λ c. c) max (y / 2) (suc x / 2) x _ (omega arith) (omega arith)
          ∙ sym (bit_or-bitwise (suc x / 2) (y / 2)))

and-zero : (n a : ℕ) → a ≤ n → bit_and a 0 ≡ 0
and-zero n zero h = refl
and-zero zero (suc a) h = absurd (omega arith)
and-zero (suc n) (suc a) h =
    omega (arith, and_digit (suc a) 0, and-zero n (suc a / 2) (omega arith))

or-zero : (n a : ℕ) → a ≤ n → bit_or a 0 ≡ a
or-zero n zero h = refl
or-zero zero (suc a) h = absurd (omega arith)
or-zero (suc n) (suc a) h = omega (arith, or_digit (suc a) 0, or-zero n (suc a / 2) (omega arith))

double_pow : (a k : ℕ) → a * 2 ^ suc k ≡ 2 * (a * 2 ^ k)
double_pow a k = omega (arith, ap (λ (t : ℕ). a * t) (pow-suc 2 k))

-- The two parts of a word at any bit are combined apart.
pub and_split :
    (k a b c d : ℕ)
    → c < 2 ^ k
    → d < 2 ^ k
    → bit_and (a * 2 ^ k + c) (b * 2 ^ k + d) ≡ bit_and a b * 2 ^ k + bit_and c d
and_split zero a b zero zero h g = ground arith
and_split zero a b zero (suc d) h g = absurd (omega arith)
and_split zero a b (suc c) d h g = absurd (omega arith)
and_split (suc k) a b c d h g = ground (
  arith,
  and_digit (a * 2 ^ suc k + c) (b * 2 ^ suc k + d),
  and_digit c d,
  double_pow a k,
  double_pow b k,
  double_pow (bit_and a b) k,
  pow-suc 2 k,
  and_split k a b (c / 2) (d / 2),
)

pub or_split :
    (k a b c d : ℕ)
    → c < 2 ^ k
    → d < 2 ^ k
    → bit_or (a * 2 ^ k + c) (b * 2 ^ k + d) ≡ bit_or a b * 2 ^ k + bit_or c d
or_split zero a b zero zero h g = ground arith
or_split zero a b zero (suc d) h g = absurd (omega arith)
or_split zero a b (suc c) d h g = absurd (omega arith)
or_split (suc k) a b c d h g = ground (
  arith,
  or_digit (a * 2 ^ suc k + c) (b * 2 ^ suc k + d),
  or_digit c d,
  double_pow a k,
  double_pow b k,
  double_pow (bit_or a b) k,
  pow-suc 2 k,
  or_split k a b (c / 2) (d / 2),
)

and_ones : (k c : ℕ) → c < 2 ^ k → bit_and c (2 ^ k - 1) ≡ c
and_ones zero zero h = refl
and_ones zero (suc c) h = absurd (omega arith)
and_ones (suc k) c h =
    ground (arith, and_digit c (2 ^ suc k - 1), pow-suc 2 k, one-le-pow k 2, and_ones k (c / 2))

pub or-zero_lem : (a : ℕ) → bit_or a 0 ≡ a
or-zero_lem a = or-zero a a (omega arith)

-- A mask of `k` low bits is the remainder by `2 ^ k`.
pub and_low : (k a : ℕ) → bit_and a (2 ^ k - 1) ≡ a % 2 ^ k
and_low k a = ground (
  arith,
  one-le-pow k 2,
  and_split k (a / 2 ^ k) 0 (a % 2 ^ k) (2 ^ k - 1),
  and-zero (a / 2 ^ k) (a / 2 ^ k),
  and_ones k (a % 2 ^ k),
)

-- A mask shifted up by `k` bits reads the word shifted down.
pub and_high : (k a b : ℕ) → bit_and a (b * 2 ^ k) ≡ bit_and (a / 2 ^ k) b * 2 ^ k
and_high k a b = ground (
  arith,
  one-le-pow k 2,
  and_split k (a / 2 ^ k) b (a % 2 ^ k) 0,
  and-zero (a % 2 ^ k) (a % 2 ^ k),
)

-- Fields that do not overlap are joined by adding.
pub or_fields : (k a b : ℕ) → b < 2 ^ k → bit_or (a * 2 ^ k) b ≡ a * 2 ^ k + b
or_fields k a b h = ground (arith, or_split k a 0 0 b, or-zero a a, or_digits_zero b)
  where
    or_digits_zero : (b : ℕ) → bit_or 0 b ≡ b
    or_digits_zero b = bit_or-bitwise 0 b
