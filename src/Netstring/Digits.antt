-- ===== src/Netstring/Digits.antt =====
-- The decimal numerals of `itoa`, as the digit loop and `strtol` of gstring.hpp read them.
use native.Mathlib.Nat.{pow-zero}
use libglim.Base.{
  ℕ, zero, suc, ◌+◌, ◌-◌, ◌*◌, ◌/◌, ◌%◌, ◌^◌, ◌≤◌, ◌<◌, ◌≡◌, ◌≢◌, refl, ap, ◌∙◌, true, false, inl,
  inr, List, [], ◌∷◌, ◌++◌, arith, ◌==◌, ==_iff, Bool-cases, length, length-append, min, All,
  lt→ltb,
}
use libglim.Base.Int.{pos}
use libglim.Itoa.Numeral.{digit, numeral, quotient_below}
use libglim.Netstring.{is_digit, is_space, digits, value, spaces, sign, strtol, skip}

abbrev pub Digits : List ℕ → Type 0
Digits xs = All (λ c. is_digit c ≡ true) xs

decimal : (d : ℕ) → d < 10 → digit d ≡ 48 + d
unfolding digit
decimal d h = rw (lt→ltb d 10 h) refl

Digits-append : (xs ys : List ℕ) → Digits xs → Digits ys → Digits (xs ++ ys)
Digits-append [] ys h k = k
Digits-append (x ∷ xs) ys (h, hs) k = (h, Digits-append xs ys hs k)

is_digit_decimal : (d : ℕ) → d < 10 → is_digit (digit d) ≡ true
is_digit_decimal d h = rw (decimal d h) (ground arith)

mod_10 : (n : ℕ) → n % 10 < 10
mod_10 n = omega arith

-- One round of the numeral, in both cases of the test.
numeral_step :
    (k n : ℕ) (P : List ℕ → Type 0)
    → (n / 10 ≡ 0 → P (digit (n % 10) ∷ []))
    → (n / 10 ≢ 0 → P (numeral k (n / 10) 10 ++ digit (n % 10) ∷ []))
    → P (numeral (suc k) n 10)
unfolding numeral
numeral_step k n P last more = elim (Bool-cases (n / 10 == 0)) [
  | inl e ↦ rw e (last ((==_iff _ _).0 e))
  | inr e ↦ rw e (more (λ z. ground (arith, z)))
]

pub numeral-Digits : (k n : ℕ) → Digits (numeral k n 10)
unfolding numeral
numeral-Digits zero n = tt
numeral-Digits (suc k) n =
    let last : Digits (digit (n % 10) ∷ []) = (is_digit_decimal _ (mod_10 n), tt) in
    let rest = numeral-Digits k (n / 10) in
    numeral_step k n Digits (λ z. last) (λ z. Digits-append (numeral k (n / 10) 10) _ rest last)

value-append :
    (acc : ℕ) (xs : List ℕ) (c : ℕ) → value acc (xs ++ c ∷ []) ≡ value acc xs * 10 + (c - 48)
unfolding value
value-append acc [] c = refl
value-append acc (x ∷ xs) c = value-append (acc * 10 + (x - 48)) xs c

digit_value : (n : ℕ) → digit (n % 10) - 48 ≡ n % 10
digit_value n = rw (decimal (n % 10) (mod_10 n)) (omega arith)

-- Reading a numeral gives the number back.
pub value-numeral : (k n : ℕ) → n < 10 ^ suc k → value 0 (numeral (suc k) n 10) ≡ n
unfolding value
value-numeral zero n h =
    numeral_step 0 n (λ xs. value 0 xs ≡ n) (λ z. omega (arith, digit_value n))
      (λ z. absurd (z (omega (arith, quotient_below 0 n 10 (omega arith) h, pow-zero 10))))
value-numeral (suc k) n h =
    let ih = value-numeral k (n / 10) (quotient_below (suc k) n 10 (omega arith) h) in
    numeral_step (suc k) n (λ xs. value 0 xs ≡ n) (λ z. omega (arith, digit_value n))
      (λ z.
        omega
          (arith, value-append 0 (numeral (suc k) (n / 10) 10) (digit (n % 10)), ih, digit_value n))

-- A number below 10 ^ d has at most d digits.
pub length-numeral : (k d n : ℕ) → n < 10 ^ suc d → length (numeral k n 10) ≤ suc d
unfolding numeral
length-numeral zero d n h = omega arith
length-numeral (suc k) zero n h =
    numeral_step k n (λ xs. length xs ≤ 1) (λ z. omega arith)
      (λ z. absurd (z (omega (arith, quotient_below 0 n 10 (omega arith) h, pow-zero 10))))
length-numeral (suc k) (suc d) n h =
    let ih = length-numeral k d (n / 10) (quotient_below (suc d) n 10 (omega arith) h) in
    numeral_step k n (λ xs. length xs ≤ suc (suc d)) (λ z. omega arith)
      (λ z. omega (arith, length-append (numeral k (n / 10) 10) (digit (n % 10) ∷ []), ih))

pub numeral_cons : (k n : ℕ) → (d : ℕ) × (ds : List ℕ) × (numeral (suc k) n 10 ≡ d ∷ ds)
unfolding numeral
numeral_cons k n =
    numeral_step k n (λ xs. (d : ℕ) × (ds : List ℕ) × (xs ≡ d ∷ ds)) (λ z. (_, _, refl))
      (λ z. starts (numeral k (n / 10) 10) (digit (n % 10)))
  where
    starts : (xs : List ℕ) (c : ℕ) → (d : ℕ) × (ds : List ℕ) × (xs ++ c ∷ [] ≡ d ∷ ds)
    starts [] c = (c, [], refl)
    starts (x ∷ xs) c = (x, xs ++ c ∷ [], refl)

-- The digit loop of netstringAt stops behind the digits.
pub skip-append :
    (ds : List ℕ) (c : ℕ) (rest : List ℕ) (next len : ℕ)
    → Digits ds
    → is_digit c ≡ false
    → next + length ds < len
    → skip (ds ++ c ∷ rest) next len ≡ next + length ds
unfolding skip
skip-append [] c rest next len h stop fits = rw stop (ground arith)
skip-append (d ∷ ds) c rest next len (h, hs) stop fits =
    rw (lt→ltb next len (omega arith), h)
      (skip-append ds c rest (next + 1) len hs stop (omega arith) ∙ omega arith)

pub digits-append :
    (ds : List ℕ) (c : ℕ) (rest : List ℕ)
    → Digits ds
    → is_digit c ≡ false
    → digits (ds ++ c ∷ rest) ≡ ds
unfolding digits
digits-append [] c rest h stop = rw stop refl
digits-append (d ∷ ds) c rest (h, hs) stop =
    rw h (ap (λ xs. d ∷ xs) (digits-append ds c rest hs stop))

pub starts_plain :
    (c : ℕ) → is_digit c ≡ true → (is_space c ≡ false) × (c == 45 ≡ false) × (c == 43 ≡ false)
starts_plain c h = (ground arith, ground arith, ground arith)

-- strtol on some digits and something else.
pub strtol-Digits :
    (d : ℕ) (ds : List ℕ) (c : ℕ) (rest : List ℕ)
    → Digits (d ∷ ds)
    → is_digit c ≡ false
    → strtol (d ∷ ds ++ c ∷ rest) ≡ (pos (min (value 0 (d ∷ ds)) (2 ^ 63 - 1)), length (d ∷ ds))
unfolding strtol spaces sign
strtol-Digits d ds c rest h stop =
    let (space, minus, plus) = starts_plain d (h.0) in
    rw space (rw (minus, plus) (rw (digits-append (d ∷ ds) c rest h stop) (ground arith)))
