-- ===== src/Compare/Order.antt =====
-- The comparisons against the bytes' equality and the lexicographic order.
use libglim.Base.{
  ℕ, suc, ◌+◌, ◌≤◌, ◌≡◌, ◌≢◌, refl, sym, ap, ◌∙◌, Bool, true, false, not, ◌&&◌, ◌||◌, List, [], ◌∷◌,
  ◌++◌, ltb, ◌==◌, if◌then◌else◌, length, length-append, min, arith, All, inl, inr, Bool-cases,
  ==_iff, ==_refl, le→ltb,
}
use libglim.Ldb.{below}
use libglim.Compare.{
  Sign, less, same, greater, memcmp_same, equals, strncmp, less_than, is_less, or_shorter,
}

memcmp_same_lem :
    (xs ys : List ℕ) → length xs ≡ length ys → memcmp_same (length xs) xs ys ≡ true → xs ≡ ys
unfolding memcmp_same
memcmp_same_lem [] [] e h = refl
memcmp_same_lem [] (y ∷ ys) e h = absurd (omega (arith, e))
memcmp_same_lem (x ∷ xs) [] e h = absurd (omega (arith, e))
memcmp_same_lem (x ∷ xs) (y ∷ ys) e h = ground (arith, memcmp_same_lem xs ys)

memcmp_same_refl : (xs : List ℕ) → memcmp_same (length xs) xs xs ≡ true
unfolding memcmp_same
memcmp_same_refl [] = refl
memcmp_same_refl (x ∷ xs) = rw (==_refl x) (memcmp_same_refl xs)

-- equals holds of two strings exactly if they have the same bytes.
pub equals_iff :
    (xs ys : List ℕ) → (equals xs ys ≡ true → xs ≡ ys) × (xs ≡ ys → equals xs ys ≡ true)
unfolding equals
equals_iff xs ys = (to, λ e. rw (← e) (rw (==_refl (length xs)) (memcmp_same_refl xs)))
  where
    to :
        (if not (length xs == length ys) then false else memcmp_same (length xs) xs ys) ≡ true
        → xs ≡ ys
    to h = elim (Bool-cases (length xs == length ys)) [
      | inl e ↦ memcmp_same_lem xs ys ((==_iff _ _).0 e) (rw e at h)
      | inr e ↦ ground (arith, h, e)
    ]

pub equals_refl : (xs : List ℕ) → equals xs xs ≡ true
equals_refl xs = (equals_iff xs xs).1 refl

-- No byte is zero.
abbrev pub Plain : List ℕ → Type 0
Plain xs = All (λ x. 1 ≤ x) xs

-- What `below` is, by the sign of strncmp on the common length.
below_lem :
    (xs ys : List ℕ)
    → Plain xs
    → below xs ys
      ≡ or_shorter (strncmp (min (length xs) (length ys)) xs ys) (ltb (length xs) (length ys))
unfolding below strncmp
below_lem [] [] p = refl
below_lem [] (y ∷ ys) p = ground arith
below_lem (x ∷ xs) [] p = ground arith
below_lem (x ∷ xs) (y ∷ ys) (px, p) =
    let shared : min (suc (length xs)) (suc (length ys)) ≡ suc (min (length xs) (length ys)) =
      omega arith in
    let shorter : ltb (suc (length xs)) (suc (length ys)) ≡ ltb (length xs) (length ys) =
      ground arith in
    rw (shared, shorter)
      (rw (below_lem xs ys p)
        (step x y px (strncmp (min (length xs) (length ys)) xs ys) (ltb (length xs) (length ys))))
  where
    step :
        (x y : ℕ)
        → 1 ≤ x
        → (rest : Sign) (shorter : Bool)
        → (ltb x y || x == y && or_shorter rest shorter)
          ≡ or_shorter
              (if ltb x y then less else if ltb y x then greater else if x == 0 then same else rest)
              shorter
    step x y h rest shorter = ground arith

no_shorter : (s : Sign) → is_less s ≡ or_shorter s false
no_shorter less = refl
no_shorter same = refl
no_shorter greater = refl

-- On strings without a zero byte, operator < is the lexicographic order of the bytes.
pub less_than-below : (xs ys : List ℕ) → Plain xs → less_than xs ys ≡ below xs ys
unfolding less_than
less_than-below xs ys p = elim (Bool-cases (length xs == length ys)) [
  | inl e ↦
      let even = (==_iff (length xs) (length ys)).0 e in
      let shared : min (length xs) (length ys) ≡ length xs = omega arith in
      let shorter : ltb (length xs) (length ys) ≡ false = le→ltb _ _ (omega arith) in
      rw e (
        no_shorter (strncmp (length xs) xs ys)
        ∙ sym (
            below_lem xs ys p
            ∙ ap (λ b. or_shorter (strncmp (min (length xs) (length ys)) xs ys) b) shorter
            ∙ ap (λ n. or_shorter (strncmp n xs ys) false) shared))
  | inr e ↦ rw e (sym (below_lem xs ys p))
]

strncmp_zero :
    (p xs ys : List ℕ) (n : ℕ) → strncmp (length p + suc n) (p ++ 0 ∷ xs) (p ++ 0 ∷ ys) ≡ same
unfolding strncmp
strncmp_zero [] xs ys n = let e : 0 + suc n ≡ suc n = omega arith in rw e refl
strncmp_zero (x ∷ p) xs ys n =
    let e : suc (length p) + suc n ≡ suc (length p + suc n) = omega arith in
    let irr : ltb x x ≡ false = ground arith in rw (e, irr, strncmp_zero p xs ys n) (ground arith)

-- Two strings of one length that agree up to a zero byte are not less than each other, even if they differ
-- behind it: operator < is then no order in which different strings can be found.
pub less_than-zero :
    (p xs ys : List ℕ)
    → length xs ≡ length ys
    → xs ≢ ys
    → (equals (p ++ 0 ∷ xs) (p ++ 0 ∷ ys) ≡ false)
      × (less_than (p ++ 0 ∷ xs) (p ++ 0 ∷ ys) ≡ false)
      × (less_than (p ++ 0 ∷ ys) (p ++ 0 ∷ xs) ≡ false)
less_than-zero p xs ys e apart = (differ, blind p xs ys e, blind p ys xs (sym e))
  where
    blind :
        (p xs ys : List ℕ) → length xs ≡ length ys → less_than (p ++ 0 ∷ xs) (p ++ 0 ∷ ys) ≡ false
    blind p xs ys e =
        let a = length-append p (0 ∷ xs) in
        let b = length-append p (0 ∷ ys) in
        let even : length (p ++ 0 ∷ xs) ≡ length (p ++ 0 ∷ ys) = omega arith in
        let n : length (p ++ 0 ∷ xs) ≡ length p + suc (length xs) = omega arith in
        unfold less_than in
        rw (even, ==_refl (length (p ++ 0 ∷ ys)))
          (rw (sym even ∙ n, strncmp_zero p xs ys (length xs)) refl)

    tail_eq : (p : List ℕ) → p ++ 0 ∷ xs ≡ p ++ 0 ∷ ys → xs ≡ ys
    tail_eq [] h = cc
    tail_eq (x ∷ p) h = let next : p ++ 0 ∷ xs ≡ p ++ 0 ∷ ys = cc in tail_eq p next

    differ : equals (p ++ 0 ∷ xs) (p ++ 0 ∷ ys) ≡ false
    differ = elim (Bool-cases (equals (p ++ 0 ∷ xs) (p ++ 0 ∷ ys))) [
      | inl h ↦ absurd (apart (tail_eq p ((equals_iff _ _).0 h)))
      | inr h ↦ h
    ]
