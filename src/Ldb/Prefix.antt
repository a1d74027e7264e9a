-- ===== src/Ldb/Prefix.antt =====
-- The entries that a prefix range visits, and where its search from the end goes wrong.
use mathlib.Core.List.{reverse, reverse-append, reverse-reverse}
use libglim.Base.{
  ℕ, zero, suc, ◌≤◌, ◌≡◌, refl, sym, ap, ◌∙◌, Bool, true, false, not, some, List, [], ◌∷◌, ◌++◌,
  if◌then◌else◌, arith, All, length, Bool-cases, inl, inr,
}
use libglim.Ldb.{
  below, starts_with, LevelIterator, Entry, check_validity, starts_begin, starts_increment,
  after_prefix, checked,
}

-- The prefix itself is not above a key that starts with it.
not-below_prefix : (p k : List ℕ) → starts_with k p ≡ true → below k p ≡ false
unfolding below starts_with
not-below_prefix [] [] h = refl
not-below_prefix [] (k ∷ ks) h = refl
not-below_prefix (p ∷ ps) [] h = cc
not-below_prefix (p ∷ ps) (k ∷ ks) h = ground (arith, not-below_prefix ps ks)

-- Past the keys that start with the prefix, no other does.
past_prefix :
    (p x y : List ℕ)
    → below x p ≡ false
    → starts_with x p ≡ false
    → below y x ≡ false
    → starts_with y p ≡ false
unfolding below starts_with
past_prefix [] [] y h g e = cc
past_prefix [] (x ∷ xs) y h g e = cc
past_prefix (p ∷ ps) [] y h g e = cc
past_prefix (p ∷ ps) (x ∷ xs) [] h g e = refl
past_prefix (p ∷ ps) (x ∷ xs) (y ∷ ys) h g e = ground (arith, past_prefix ps xs ys)

-- In the order of the bytes.
abbrev pub Sorted : List (List ℕ) → Type 0
Sorted [] = Unit
Sorted (k ∷ ks) = All (λ y. below y k ≡ false) ks × Sorted ks

-- The keys from `p` on.
unfoldable pub keys_from : List ℕ → List (List ℕ) → List (List ℕ)
keys_from p [] = []
keys_from p (k ∷ ks) = let rest = keys_from p ks in if below k p then rest else k ∷ ks

unfoldable pub prefixed : List ℕ → List (List ℕ) → List (List ℕ)
prefixed p [] = []
prefixed p (k ∷ ks) = let rest = prefixed p ks in if starts_with k p then k ∷ rest else rest

-- The first keys, as long as they start with `p`.
run_of : List ℕ → List (List ℕ) → List (List ℕ)
run_of p [] = []
run_of p (k ∷ ks) = let rest = run_of p ks in if starts_with k p then k ∷ rest else []

none_prefixed :
    (p x : List ℕ) (ks : List (List ℕ))
    → below x p ≡ false
    → starts_with x p ≡ false
    → All (λ y. below y x ≡ false) ks
    → prefixed p ks ≡ []
unfolding prefixed
none_prefixed p x [] h g all = refl
none_prefixed p x (k ∷ ks) h g (first, all) =
    rw (past_prefix p x k h g first) (none_prefixed p x ks h g all)

run_of-Sorted :
    (p : List ℕ) (ks : List (List ℕ))
    → Sorted ks
    → All (λ k. below k p ≡ false) ks
    → run_of p ks ≡ prefixed p ks
unfolding run_of prefixed
run_of-Sorted p [] s all = refl
run_of-Sorted p (k ∷ ks) (above, s) (first, all) = elim (Bool-cases (starts_with k p)) [
  | inl starts ↦ rw starts (ap (λ l. k ∷ l) (run_of-Sorted p ks s all))
  | inr apart ↦ rw apart (sym (none_prefixed p k ks first apart above))
]

pub below_trans : (p x y : List ℕ) → below x p ≡ false → below y x ≡ false → below y p ≡ false
unfolding below
below_trans [] [] [] h g = refl
below_trans [] [] (y ∷ ys) h g = refl
below_trans [] (x ∷ xs) [] h g = cc
below_trans [] (x ∷ xs) (y ∷ ys) h g = refl
below_trans (p ∷ ps) [] y h g = cc
below_trans (p ∷ ps) (x ∷ xs) [] h g = cc
below_trans (p ∷ ps) (x ∷ xs) (y ∷ ys) h g = ground (arith, below_trans ps xs ys)

pub All-above :
    (p k : List ℕ) (ks : List (List ℕ))
    → below k p ≡ false
    → All (λ y. below y k ≡ false) ks
    → All (λ y. below y p ≡ false) ks
All-above p k [] h all = tt
All-above p k (y ∷ ks) h (first, all) = (below_trans p k y h first, All-above p k ks h all)

run_of-keys_from :
    (p : List ℕ) (ks : List (List ℕ)) → Sorted ks → run_of p (keys_from p ks) ≡ prefixed p ks
unfolding keys_from prefixed
run_of-keys_from p [] s = unfold run_of in refl
run_of-keys_from p (k ∷ ks) (above, s) = elim (Bool-cases (below k p)) [
  | inl low ↦ elim (Bool-cases (starts_with k p)) [
    | inl starts ↦ absurd (true≢false low (not-below_prefix p k starts))
    | inr apart ↦ rw (low, apart) (run_of-keys_from p ks s)
  ]
  | inr high ↦ rw high (run_of-Sorted p (k ∷ ks) (above, s) (high, All-above p k ks high above))
]
  where
    true≢false : below k p ≡ true → below k p ≡ false → ⊥
    true≢false a b = cc

abbrev pub is_nil : List (List ℕ) → Bool
is_nil [] = true
is_nil (k ∷ ks) = false

-- What leveldb promises of an iterator over a snapshot with the keys `keys`: `rest` is what lies from
-- its position on.
pub record Snapshot {C : Type 0} (L : LevelIterator C) (keys : List (List ℕ)) : Type 0 where
  pub rest : C → List (List ℕ)
  pub valid_law : (c : C) → L.is_valid c ≡ not (is_nil (rest c))
  pub key_law : (c : C) (k : List ℕ) (ks : List (List ℕ)) → rest c ≡ k ∷ ks → L.key c ≡ k
  pub next_law :
      (c : C) (k : List ℕ) (ks : List (List ℕ)) → rest c ≡ k ∷ ks → rest (L.next_entry c) ≡ ks
  pub seek_law : (p : List ℕ) (c : C) → rest (L.seek_key p c) ≡ keys_from p keys

-- The keys that a loop over the range visits, at most `rounds` of them.
unfoldable pub visit : {C : Type 0} → LevelIterator C → ℕ → List ℕ → Entry C → List (List ℕ)
visit L zero p e = []
visit L (suc rounds) p e =
    let more = visit L rounds p (starts_increment L p e) in
    if e.valid then L.key e.lit ∷ more else []

visit-run_of :
    {C : Type 0} (L : LevelIterator C) (keys : List (List ℕ)) (S : Snapshot L keys) (rounds : ℕ)
    (p : List ℕ) (c : C)
    → length (S.rest c) ≤ rounds
    → visit L rounds p (checked L p c) ≡ run_of p (S.rest c)
unfolding visit run_of check_validity starts_increment
visit-run_of L keys S zero p c h = empty (S.rest c) h
  where
    empty : (ks : List (List ℕ)) → length ks ≤ 0 → [] ≡ run_of p ks
    empty [] h = refl
    empty (k ∷ ks) h = absurd (omega arith)
visit-run_of L keys S (suc rounds) p c h =
    go (S.rest c) refl (λ fewer. visit-run_of L keys S rounds p (L.next_entry c) fewer)
  where
    go :
        (ks : List (List ℕ))
        → S.rest c ≡ ks
        → (length (S.rest (L.next_entry c)) ≤ rounds
            → visit L rounds p (checked L p (L.next_entry c)) ≡ run_of p (S.rest (L.next_entry c)))
        → visit L (suc rounds) p (checked L p c) ≡ run_of p ks
    go [] e ih = rw (S.valid_law c, e) refl
    go (k ∷ ks) e ih =
        let next = S.next_law c k ks e in
        let same = S.key_law c k ks e in
        let short : length ks ≤ rounds = omega (arith, ap length e) in
        let check : check_validity L p c ≡ starts_with k p = rw (S.valid_law c, e, same) refl in
        elim (Bool-cases (starts_with k p)) [
          | inl starts ↦
              rw (check ∙ starts)
                (rw (starts, same) (ap (λ l. k ∷ l) (ih (rw next short) ∙ ap (run_of p) next)))
          | inr apart ↦ rw (check ∙ apart) (rw apart refl)
        ]

pub length-keys_from : (p : List ℕ) (ks : List (List ℕ)) → length (keys_from p ks) ≤ length ks
unfolding keys_from
length-keys_from p [] = omega arith
length-keys_from p (k ∷ ks) = ground (arith, length-keys_from p ks)

-- A loop over startsWith visits the keys that start with the prefix, all of them and in their order, if
-- leveldb's iterator keeps its promises on a snapshot with sorted keys.
pub visit-starts_begin :
    {C : Type 0} (L : LevelIterator C) (keys : List (List ℕ)) (S : Snapshot L keys) (rounds : ℕ)
    (p : List ℕ) (c : C)
    → Sorted keys
    → length keys ≤ rounds
    → visit L rounds p (starts_begin L p c) ≡ prefixed p keys
unfolding starts_begin
visit-starts_begin L keys S rounds p c sorted enough =
    visit-run_of L keys S rounds p (L.seek_key p c)
      (rw (S.seek_law p c) (omega (arith, length-keys_from p keys)))
    ∙ ap (run_of p) (S.seek_law p c)
    ∙ run_of-keys_from p keys sorted

below-last : (p k : List ℕ) → starts_with k (p ++ 255 ∷ []) ≡ true → below (p ++ 0 ∷ []) k ≡ true
unfolding below starts_with
below-last [] [] h = cc
below-last [] (x ∷ k) h = ground arith
below-last (y ∷ p) [] h = cc
below-last (y ∷ p) (x ∷ k) h = ground (arith, below-last p k)

-- For a prefix that ends in the byte 255, the key that the search from the end seeks lies below every key
-- with the prefix; it is meant to lie above them.
pub after_prefix-below :
    (p k : List ℕ)
    → starts_with k (p ++ 255 ∷ []) ≡ true
    → (after : List ℕ) × (after_prefix (p ++ 255 ∷ []) ≡ some after) × (below after k ≡ true)
unfolding after_prefix
after_prefix-below p k starts = (
  p ++ 0 ∷ [],
  rw (reverse-append p (255 ∷ []))
      (ap some (reverse-append (0 ∷ []) (reverse p) ∙ ap (λ l. l ++ 0 ∷ []) (reverse-reverse p))),
  below-last p k starts,
)
