-- ===== src/Base/Slices.antt =====
-- Ranges of a list: what memcpy reads and writes.
use Prim.Native.Nat.{ℕ, zero, suc, ◌+◌, ◌≤◌}
use mathlib.Core.Path.{◌≡◌, refl, ap, ◌∙◌, sym}
use mathlib.Core.List.{List, [], ◌∷◌, ◌++◌}
use native.Mathlib.Nat.{zero-add, suc-add}
use native.Mathlib.Omega.{arith}
use libglim.Base.Lists.{length, take, drop}

module _ {ℓ} {A : Type ℓ} where
  -- The `n` elements from index `o`.
  unfoldable pub slice : List A → ℕ → ℕ → List A
  slice xs o n = take n (drop o xs)

  overwrite : List A → List A → List A
  overwrite [] ys = []
  overwrite (x ∷ xs) [] = x ∷ xs
  overwrite (x ∷ xs) (y ∷ ys) = y ∷ overwrite xs ys

  -- The list with `ys` written over it from index `o`.
  unfoldable pub splice : List A → ℕ → List A → List A
  unfolding overwrite
  splice xs zero ys = overwrite xs ys
  splice [] (suc o) ys = []
  splice (x ∷ xs) (suc o) ys = x ∷ splice xs o ys

  length-overwrite : (xs ys : List A) → length (overwrite xs ys) ≡ length xs
  unfolding overwrite
  length-overwrite [] ys = refl
  length-overwrite (x ∷ xs) [] = refl
  length-overwrite (x ∷ xs) (y ∷ ys) = ap suc (length-overwrite xs ys)

  pub length-splice : (xs : List A) (o : ℕ) (ys : List A) → length (splice xs o ys) ≡ length xs
  unfolding splice
  length-splice xs zero ys = length-overwrite xs ys
  length-splice [] (suc o) ys = refl
  length-splice (x ∷ xs) (suc o) ys = ap suc (length-splice xs o ys)

  pub length-slice : (xs : List A) (o n : ℕ) → o + n ≤ length xs → length (slice xs o n) ≡ n
  unfolding slice
  length-slice xs zero zero h = refl
  length-slice [] zero (suc n) h = absurd (omega arith)
  length-slice (x ∷ xs) zero (suc n) h = ap suc (length-slice xs zero n (omega arith))
  length-slice [] (suc o) n h = absurd (omega arith)
  length-slice (x ∷ xs) (suc o) n h = length-slice xs o n (omega arith)

  slice-overwrite :
      (xs ys : List A) → length ys ≤ length xs → take (length ys) (overwrite xs ys) ≡ ys
  unfolding overwrite
  slice-overwrite xs [] h = refl
  slice-overwrite [] (y ∷ ys) h = absurd (omega arith)
  slice-overwrite (x ∷ xs) (y ∷ ys) h = ap (◌∷◌ y) (slice-overwrite xs ys (omega arith))

  -- What was written behind the first `n` elements of a range follows them.
  pub slice-splice :
      (xs : List A) (o n p m : ℕ) (ys : List A)
      → p ≡ o + n
      → m ≡ n + length ys
      → o + m ≤ length xs
      → slice (splice xs p ys) o m ≡ slice xs o n ++ ys
  unfolding slice splice
  slice-splice xs zero zero zero m ys e f h =
      let g : m ≡ length ys = omega arith in rw g (slice-overwrite xs ys (omega arith))
  slice-splice xs zero zero (suc p) m ys e f h = absurd (omega arith)
  slice-splice xs zero (suc n) zero m ys e f h = absurd (omega arith)
  slice-splice xs zero (suc n) (suc p) zero ys e f h = absurd (omega arith)
  slice-splice [] zero (suc n) (suc p) (suc m) ys e f h = absurd (omega arith)
  slice-splice (x ∷ xs) zero (suc n) (suc p) (suc m) ys e f h =
      ap (◌∷◌ x) (slice-splice xs zero n p m ys (omega arith) (omega arith) (omega arith))
  slice-splice xs (suc o) n zero m ys e f h = absurd (omega arith)
  slice-splice [] (suc o) n (suc p) m ys e f h = absurd (omega arith)
  slice-splice (x ∷ xs) (suc o) n (suc p) m ys e f h =
      slice-splice xs o n p m ys (omega arith) (omega arith) (omega arith)

  pub slice-splice_before :
      (xs : List A) (o n p : ℕ) (ys : List A)
      → o + n ≤ p
      → slice (splice xs p ys) o n ≡ slice xs o n
  unfolding slice splice
  slice-splice_before xs zero zero p ys h = refl
  slice-splice_before xs zero (suc n) zero ys h = absurd (omega arith)
  slice-splice_before [] zero (suc n) (suc p) ys h = refl
  slice-splice_before (x ∷ xs) zero (suc n) (suc p) ys h =
      ap (◌∷◌ x) (slice-splice_before xs zero n p ys (omega arith))
  slice-splice_before xs (suc o) n zero ys h = absurd (omega arith)
  slice-splice_before [] (suc o) n (suc p) ys h = refl
  slice-splice_before (x ∷ xs) (suc o) n (suc p) ys h =
      slice-splice_before xs o n p ys (omega arith)

  -- A range of a range.
  pub slice-slice :
      (xs : List A) (o n i k : ℕ) → i + k ≤ n → slice (slice xs o n) i k ≡ slice xs (o + i) k
  unfolding slice
  slice-slice xs zero n i k h = rw zero-add (inner xs n i k h)
    where
      inner :
          (xs : List A) (n i k : ℕ) → i + k ≤ n → take k (drop i (take n xs)) ≡ take k (drop i xs)
      inner xs n i zero h = refl
      inner xs zero i (suc k) h = absurd (omega arith)
      inner [] (suc n) zero (suc k) h = refl
      inner [] (suc n) (suc i) (suc k) h = refl
      inner (x ∷ xs) (suc n) zero (suc k) h = ap (◌∷◌ x) (inner xs n zero k (omega arith))
      inner (x ∷ xs) (suc n) (suc i) (suc k) h = inner xs n i (suc k) (omega arith)
  slice-slice [] (suc o) n i k h = rw suc-add (nothing n i k)
    where
      nothing : (n i k : ℕ) → take {A = A} k (drop i (take n [])) ≡ take k []
      nothing zero zero k = refl
      nothing zero (suc i) k = refl
      nothing (suc n) zero k = refl
      nothing (suc n) (suc i) k = refl
  slice-slice (x ∷ xs) (suc o) n i k h = rw suc-add (slice-slice xs o n i k h)

module _ {ℓ} {A : Type ℓ} where
  take_nil : (n : ℕ) → take n (let none_left : List A = [] in none_left) ≡ []
  take_nil zero = refl
  take_nil (suc n) = refl

  drop_nil : (n : ℕ) → drop n (let none_left : List A = [] in none_left) ≡ []
  drop_nil zero = refl
  drop_nil (suc n) = refl

  take_more : (xs : List A) (a b : ℕ) → take a xs ++ take b (drop a xs) ≡ take (a + b) xs
  take_more xs zero b = rw (zero-add b) refl
  take_more [] (suc a) b = take_nil b ∙ sym (take_nil (suc a + b))
  take_more (x ∷ xs) (suc a) b = rw (suc-add a b) (ap (λ l. x ∷ l) (take_more xs a b))

  pub drop_more : (xs : List A) (o a : ℕ) → drop (o + a) xs ≡ drop a (drop o xs)
  drop_more xs zero a = rw (zero-add a) refl
  drop_more [] (suc o) a = drop_nil (suc o + a) ∙ sym (drop_nil a)
  drop_more (x ∷ xs) (suc o) a = rw (suc-add o a) (drop_more xs o a)

  pub slice-join :
      (xs : List A) (o a b : ℕ) → slice xs o a ++ slice xs (o + a) b ≡ slice xs o (a + b)
  unfolding slice
  slice-join xs o a b = rw (drop_more xs o a) (take_more (drop o xs) a b)
