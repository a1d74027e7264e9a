-- ===== src/Memory/Laws.antt =====
-- What reads see after a write, a `malloc` or a `realloc`.
use libglim.Base.{
  ℕ, zero, suc, ◌≤◌, ◌<◌, ◌≡◌, ◌≢◌, refl, List, [], ◌∷◌, ◌++◌, length, length-append, get_elem?,
  arith, take, replicate, length-take, length-replicate, slice,
}
use libglim.Memory.{Memory, resized}

-- `t` keeps every block of `s` but the one at `i`.
abbrev pub KeepsBut : ℕ → Memory → Memory → Type 0
KeepsBut i m n = (j : ℕ) → j ≢ i → j < length m.blocks → get_elem? n.blocks j ≡ get_elem? m.blocks j

pub length-resized : (xs : List ℕ) (n junk : ℕ) → length (resized xs n junk) ≡ n
length-resized xs n junk = omega (
  arith,
  length-take n (xs ++ replicate n junk),
  length-append xs (replicate n junk),
  length-replicate n junk,
)

module _ {ℓ} {A : Type ℓ} where
  take-take-append :
      (xs ys : List A) (k n : ℕ) → k ≤ n → k ≤ length xs → take k (take n (xs ++ ys)) ≡ take k xs
  take-take-append xs ys zero n h g = refl
  take-take-append [] ys (suc k) n h g = absurd (omega arith)
  take-take-append (x ∷ xs) ys (suc k) zero h g = absurd (omega arith)
  take-take-append (x ∷ xs) ys (suc k) (suc n) h g =
      λ i. x ∷ take-take-append xs ys k n (omega arith) (omega arith) i

-- realloc keeps the bytes that fit both blocks.
pub slice-resized :
    (xs : List ℕ) (k n junk : ℕ)
    → k ≤ n
    → k ≤ length xs
    → slice (resized xs n junk) 0 k ≡ slice xs 0 k
unfolding slice
slice-resized xs k n junk h g = take-take-append xs (replicate n junk) k n h g
