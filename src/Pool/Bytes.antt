-- ===== src/Pool/Bytes.antt =====
-- Reading and writing parts of a list of bytes, and numbers in the network's order.
use libglim.Base.{
  ℕ, zero, suc, ◌+◌, ◌^◌, ◌≤◌, ◌<◌, ◌≡◌, refl, ap, ◌∙◌, List, [], ◌∷◌, ◌++◌, append_assoc, arith,
  length, take, drop, slice, splice, slice-splice, some, le→leb, le→ltb, ==_ne, take-append_left,
  drop-append_left,
}
use libglim.Pool.{network_order, from_network, bytes_from, uint32_at, extend}

pub from_network-network_order : (n : ℕ) → n < 2 ^ 32 → from_network (network_order n) ≡ n
from_network-network_order n h = omega arith

module _ {A : Type 0} where
  pub slice-splice_after :
      (xs : List A) (o n p : ℕ) (ys : List A)
      → p + length ys ≤ o
      → slice (splice xs p ys) o n ≡ slice xs o n
  unfolding slice splice
  slice-splice_after xs o n p ys h = ap (take n) (drop-splice xs o p ys h)
    where
      drop-overwrite :
          (xs ys : List A) (o : ℕ) → length ys ≤ o → drop o (splice xs 0 ys) ≡ drop o xs
      drop-overwrite [] ys o h = refl
      drop-overwrite (x ∷ xs) [] o h = refl
      drop-overwrite (x ∷ xs) (y ∷ ys) zero h = absurd (omega arith)
      drop-overwrite (x ∷ xs) (y ∷ ys) (suc o) h = drop-overwrite xs ys o (omega arith)

      drop-splice :
          (xs : List A) (o p : ℕ) (ys : List A)
          → p + length ys ≤ o
          → drop o (splice xs p ys) ≡ drop o xs
      drop-splice xs o zero ys h = drop-overwrite xs ys o (omega arith)
      drop-splice [] o (suc p) ys h = refl
      drop-splice (x ∷ xs) zero (suc p) ys h = absurd (omega arith)
      drop-splice (x ∷ xs) (suc o) (suc p) ys h = drop-splice xs o p ys (omega arith)

  pub slice-append_left :
      (xs ys : List A) (o n : ℕ) → o + n ≤ length xs → slice (xs ++ ys) o n ≡ slice xs o n
  unfolding slice
  slice-append_left xs ys zero n h = take-append xs ys n (omega arith)
    where
      take-append : (xs ys : List A) (n : ℕ) → n ≤ length xs → take n (xs ++ ys) ≡ take n xs
      take-append xs ys zero h = refl
      take-append [] ys (suc n) h = elim h [ ]
      take-append (x ∷ xs) ys (suc n) h = ap (λ zs. x ∷ zs) (take-append xs ys n (omega arith))
  slice-append_left [] ys (suc o) zero h = refl
  slice-append_left [] ys (suc o) (suc n) h = absurd (omega arith)
  slice-append_left (x ∷ xs) ys (suc o) n h = slice-append_left xs ys o n (omega arith)

  pub slice-append_middle :
      (xs ys zs : List A) → slice (xs ++ ys ++ zs) (length xs) (length ys) ≡ ys
  unfolding slice
  slice-append_middle xs ys zs =
      rw (append_assoc xs ys zs, drop-append_left xs (ys ++ zs)) (take-append_left ys zs)

  pub slice-splice_self :
      (xs : List A) (p : ℕ) (ys : List A)
      → p + length ys ≤ length xs
      → slice (splice xs p ys) p (length ys) ≡ ys
  slice-splice_self xs p ys h =
      slice-splice xs p 0 p (length ys) ys (omega arith) (omega arith) h ∙ unfold slice in refl

-- A number read where its four bytes lie.
pub uint32_at_lem :
    (pool : List ℕ) (at n : ℕ)
    → at + 4 ≤ length pool
    → slice pool at 4 ≡ network_order n
    → n < 2 ^ 32
    → uint32_at pool at ≡ some n
unfolding uint32_at bytes_from
uint32_at_lem pool at n h e small =
    rw (le→leb (at + 4) (length pool) h, e) (ap some (from_network-network_order n small))

pub extend_lem : (xs ys : List ℕ) → length xs + length ys < 2 ^ 24 → extend xs ys ≡ some (xs ++ ys)
unfolding extend
extend_lem xs ys h =
    rw
      (
        ==_ne (length xs + length ys) (2 ^ 24) (λ e. omega (arith, e)),
        le→ltb (2 ^ 24) (length xs + length ys) (omega arith),
      )
      refl
