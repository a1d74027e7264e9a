-- ===== src/Itoa/Numeral.antt =====
-- `itoa` against the positional numeral of a number, and the numeral's length.
use mathlib.Core.List.{reverse, reverse-append, reverse-reverse}
use native.Mathlib.Nat.{pow-suc, pow-zero, mod-lt, div-lt_iff_lt-mul}
use libglim.Base.{
  ℕ, zero, suc, ◌+◌, ◌-◌, ◌*◌, ◌/◌, ◌%◌, ◌^◌, ◌≤◌, ◌<◌, ◌≡◌, ◌≢◌, refl, ap, ◌∙◌, true, false, List,
  [], ◌∷◌, ◌++◌, append_assoc, ==_ne, ◌==◌, if◌then◌else◌, arith, inl, inr, Bool-cases, test_each,
  test_each_lem, ==_iff, le→ltb, ltb,
}
use libglim.Base.Int.{ℤ, pos, negsuc}
use libglim.Itoa.{itoa, loop, char_at, opposite, quotient, index, is_zero, signed}

-- The digit of a value below 36: 0 to 9, and then the letters from a on.
unfoldable pub digit : ℕ → ℕ
digit d = if ltb d 10 then b'0' + d else b'a' + (d - 10)

-- The numeral of `n`, the highest digit first; `rounds` bounds the number of digits.
unfoldable pub numeral : ℕ → ℕ → ℕ → List ℕ
numeral zero n base = []
numeral (suc rounds) n base =
    (if n / base == 0 then [] else numeral rounds (n / base) base) ++ digit (n % base) ∷ []

abbrev pub magnitude : ℤ → ℕ
magnitude (pos n) = n
magnitude (negsuc n) = suc n

abbrev pub sign : ℤ → List ℕ
sign (pos n) = []
sign (negsuc n) = b'-' ∷ []

lower_table : test_each (λ d. char_at (35 - d) == digit d) 36 ≡ true
unfolding test_each char_at digit
lower_table = refl

upper_table : test_each (λ d. char_at (35 + d) == digit d) 36 ≡ true
unfolding test_each char_at digit
upper_table = refl

-- The table has the digits on both sides of its middle.
lower : (d : ℕ) → d < 36 → char_at (35 - d) ≡ digit d
lower d h = (==_iff _ _).0 (test_each_lem _ 36 lower_table d h)

upper : (d : ℕ) → d < 36 → char_at (35 + d) ≡ digit d
upper d h = (==_iff _ _).0 (test_each_lem _ 36 upper_table d h)

remainder_below : (n base : ℕ) → 2 ≤ base → base ≤ 36 → n % base < 36
remainder_below n base two small = omega (arith, mod-lt n (let pos : 0 < base = omega arith in pos))

div_below : (n m b : ℕ) → 2 ≤ b → n < m * b → n / b < m
div_below n m b two h = (div-lt_iff_lt-mul (omega arith)).1 h

pub quotient_below : (k n base : ℕ) → 2 ≤ base → n < base ^ suc k → n / base < base ^ k
quotient_below k n base two h = div_below n (base ^ k) base two (rw pow-suc at h)

numeral_last :
    (k n base : ℕ) → n / base ≡ 0 → reverse (numeral (suc k) n base) ≡ digit (n % base) ∷ []
unfolding numeral
numeral_last k n base e = rw e refl

numeral_more :
    (k n base : ℕ)
    → n / base ≢ 0
    → reverse (numeral (suc k) n base) ≡ digit (n % base) ∷ reverse (numeral k (n / base) base)
unfolding numeral
numeral_more k n base e =
    rw (==_ne (n / base) 0 e) (reverse-append (numeral k (n / base) base) (digit (n % base) ∷ []))

is_zero-pos : (m : ℕ) → m ≢ 0 → is_zero (pos m) ≡ false
is_zero-pos zero h = absurd (h refl)
is_zero-pos (suc m) h = refl

loop_last :
    (k : ℕ) (v : ℤ) (base : ℕ) (out : List ℕ)
    → is_zero (quotient v base) ≡ true
    → loop (suc k) v base out ≡ (out ++ char_at (index v base) ∷ [], v)
unfolding loop
loop_last k v base out e = rw e refl

loop_more :
    (k : ℕ) (v : ℤ) (base : ℕ) (out : List ℕ)
    → is_zero (quotient v base) ≡ false
    → loop (suc k) v base out ≡ loop k (quotient v base) base (out ++ char_at (index v base) ∷ [])
unfolding loop
loop_more k v base out e = rw e refl

loop_pos_done :
    (k n base : ℕ) (out : List ℕ)
    → 2 ≤ base
    → base ≤ 36
    → n / base ≡ 0
    → signed (loop (suc k) (pos n) base out) ≡ out ++ reverse (numeral (suc k) n base)
loop_pos_done k n base out two small z =
    rw
      (
        loop_last k (pos n) base out (ap (λ m. is_zero (pos m)) z),
        numeral_last k n base z,
        upper (n % base) (remainder_below n base two small),
      )
      refl

loop_pos :
    (k n base : ℕ) (out : List ℕ)
    → 2 ≤ base
    → base ≤ 36
    → n < base ^ suc k
    → signed (loop (suc k) (pos n) base out) ≡ out ++ reverse (numeral (suc k) n base)
loop_pos zero n base out two small h =
    loop_pos_done 0 n base out two small
      (omega (arith, quotient_below 0 n base two h, pow-zero base))
loop_pos (suc k) n base out two small h = elim (Bool-cases (n / base == 0)) [
  | inl e ↦ loop_pos_done (suc k) n base out two small ((==_iff _ _).0 e)
  | inr e ↦
      let z : n / base ≢ 0 = (λ z. ground (arith, z)) in
      rw
        (
          loop_more (suc k) (pos n) base out (is_zero-pos (n / base) z),
          numeral_more (suc k) n base z,
          upper (n % base) (remainder_below n base two small),
        )
        (loop_pos k (n / base) base (out ++ digit (n % base) ∷ []) two small
            (quotient_below (suc k) n base two h)
          ∙ append_assoc out (digit (n % base) ∷ []) _)
]

opposite_zero : (m : ℕ) → m ≡ 0 → is_zero (opposite m) ≡ true
opposite_zero m e = rw e refl

opposite_suc : (m : ℕ) → m ≢ 0 → opposite m ≡ negsuc (m - 1)
opposite_suc zero h = absurd (h refl)
opposite_suc (suc m) h = ap negsuc (omega arith)

remainder_mirror : (n base : ℕ) → 2 ≤ base → base ≤ 36 → char_at (35 - n % base) ≡ digit (n % base)
remainder_mirror n base two small = lower _ (remainder_below n base two small)

loop_neg_done :
    (k n base : ℕ) (out : List ℕ)
    → 2 ≤ base
    → base ≤ 36
    → suc n / base ≡ 0
    → signed (loop (suc k) (negsuc n) base out)
      ≡ out ++ reverse (numeral (suc k) (suc n) base) ++ b'-' ∷ []
loop_neg_done k n base out two small z =
    rw
      (
        loop_last k (negsuc n) base out (opposite_zero _ z),
        numeral_last k (suc n) base z,
        remainder_mirror (suc n) base two small,
      )
      refl

-- `m` is the magnitude, of which `j` is the predecessor.
loop_neg :
    (k m j base : ℕ) (out : List ℕ)
    → suc j ≡ m
    → 2 ≤ base
    → base ≤ 36
    → m < base ^ suc k
    → signed (loop (suc k) (negsuc j) base out)
      ≡ out ++ reverse (numeral (suc k) m base) ++ b'-' ∷ []
loop_neg zero m j base out e two small h = rw (← e) (
    loop_neg_done 0 j base out two small
      (omega (arith, quotient_below 0 (suc j) base two (rw e h), pow-zero base)))
loop_neg (suc k) m j base out e two small h = elim (Bool-cases (suc j / base == 0)) [
  | inl z ↦ rw (← e) (loop_neg_done (suc k) j base out two small ((==_iff _ _).0 z))
  | inr y ↦
      let z : suc j / base ≢ 0 = (λ z. ground (arith, z)) in
      let q = opposite_suc (suc j / base) z in
      rw (← e) (
        rw
          (
            loop_more (suc k) (negsuc j) base out (ap is_zero q),
            numeral_more (suc k) (suc j) base z,
            q,
            remainder_mirror (suc j) base two small,
          )
          (loop_neg k (suc j / base) (suc j / base - 1) base (out ++ digit (suc j % base) ∷ [])
              (omega arith) two small (quotient_below (suc k) (suc j) base two (rw e h))
            ∙ ap (λ xs. xs ++ b'-' ∷ []) (append_assoc out (digit (suc j % base) ∷ []) _)))
]

-- For a base from 2 to 36 `itoa` writes the sign and the positional numeral of the magnitude, with the digits
-- 0 to 9 and the letters from a on; the magnitude is below the 64th power of the base, as each int64_t is.
pub itoa-numeral :
    (value : ℤ) (base : ℕ)
    → 2 ≤ base
    → base ≤ 36
    → magnitude value < base ^ 64
    → itoa value base ≡ sign value ++ numeral 64 (magnitude value) base
unfolding itoa
itoa-numeral (pos n) base two small h =
    rw (le→ltb 36 base small, le→ltb base 2 two, loop_pos 63 n base [] two small h)
      (reverse-reverse (numeral 64 n base))
itoa-numeral (negsuc n) base two small h =
    rw (le→ltb 36 base small, le→ltb base 2 two, loop_neg 63 (suc n) n base [] refl two small h)
      (reverse-append (reverse (numeral 64 (suc n) base)) (b'-' ∷ [])
        ∙ ap (λ xs. b'-' ∷ xs) (reverse-reverse (numeral 64 (suc n) base)))
