-- ===== src/Coroutine/Stacks.antt =====
-- What holds of the stacks whatever coroutines come and go.
use libglim.Base.{
  ℕ, ◌+◌, ◌≤◌, ◌<◌, ◌≡◌, sym, ap, subst, ◌⊎◌, inl, inr, ◌&&◌, Option, none, some, List, [], ◌∷◌,
  ◌++◌, arith, ltb, ◌==◌, if◌then◌else◌, length, Bool-cases, ℕ_discrete, ==_refl, ==_ne,
}
use libglim.Coroutine.{
  StackPool, System, mapped, allocate_stack, free_stack, Event, construct, destroy, Happens, start,
  next,
}

-- How often a stack is in a list.
unfoldable pub count : ℕ → List ℕ → ℕ
count x [] = 0
count x (y ∷ ys) = (if x == y then 1 else 0) + count x ys

pub count-append : (x : ℕ) (xs ys : List ℕ) → count x (xs ++ ys) ≡ count x xs + count x ys
unfolding count
count-append x [] ys = omega arith
count-append x (y ∷ xs) ys = omega (arith, count-append x xs ys)

count_head : (x y : ℕ) (ys : List ℕ) → count x (y ∷ ys) ≡ count x (y ∷ []) + count x ys
unfolding count
count_head x y ys = omega arith

count_middle :
    (x y : ℕ) (xs ys : List ℕ) → count x (xs ++ y ∷ ys) ≡ count x (y ∷ []) + count x (xs ++ ys)
count_middle x y xs ys =
    omega (arith, count-append x xs (y ∷ ys), count-append x xs ys, count_head x y ys)

-- mmap does not give a stack that is mapped.
abbrev pub Fresh : System → Type 0
Fresh sys =
    (m : StackPool) (stack : ℕ)
    → sys.mmap m ≡ some stack
    → count stack m.free + count stack m.used ≡ 0

-- Every stack is at one place at most, and the free list is no longer than the caches allow.
abbrev pub Separate : ℕ → StackPool → Type 0
Separate most m = ((x : ℕ) → count x m.free + count x m.used ≤ 1) × (length m.free ≤ most)

-- A stack that is nowhere may be held.
count-cons :
    (x stack : ℕ) (free used : List ℕ)
    → count stack free + count stack used ≡ 0
    → count x free + count x used ≤ 1
    → count x free + count x (stack ∷ used) ≤ 1
unfolding count
count-cons x stack free used nowhere once = elim (ℕ_discrete x stack) [
  | yes same ↦
      subst (λ y. count y free + count y (stack ∷ used) ≤ 1) (sym same)
        (rw (==_refl stack) (omega (arith, nowhere)))
  | no other ↦ rw (==_ne x stack other) (omega (arith, once))
]

mapped-some :
    (o : Option ℕ) (free rest : List ℕ) (stack : ℕ)
    → mapped o free ≡ some (stack, rest)
    → (o ≡ some stack) × (free ≡ rest)
mapped-some none free rest stack e = cc
mapped-some (some got) free rest stack e = (cc, cc)

pair_lists : {a b : ℕ} {xs ys : List ℕ} → mapped (some a) xs ≡ mapped (some b) ys → a ∷ xs ≡ b ∷ ys
pair_lists e = cc

module _ (sys : System) (fresh : Fresh sys) (most : ℕ) where
  -- The stack came from mmap, or from the front of the free list.
  allocate_stack_cases :
      (free used rest : List ℕ) (cache_stack stack : ℕ)
      → allocate_stack sys cache_stack (record { free = free; used = used }) ≡ some (stack, rest)
      → ((sys.mmap (record { free = free; used = used }) ≡ some stack) × (free ≡ rest))
        ⊎ (free ≡ stack ∷ rest)
  unfolding allocate_stack
  allocate_stack_cases [] used rest cache_stack stack e = elim (Bool-cases (cache_stack == 0)) [
    | inl no_cache ↦ inl (mapped-some _ _ _ _ (rw no_cache at e))
    | inr cache ↦ inl (mapped-some _ _ _ _ (rw cache at e))
  ]
  allocate_stack_cases (front ∷ free) used rest cache_stack stack e =
      elim (Bool-cases (cache_stack == 0)) [
        | inl no_cache ↦ inl (mapped-some _ _ _ _ (rw no_cache at e))
        | inr cache ↦
            let same : mapped (some front) free ≡ mapped (some stack) rest = rw cache at e in
            inr (pair_lists same)
      ]

  free_stack_cases :
      (free rest : List ℕ) (cache_stack stack : ℕ)
      → free_stack sys cache_stack stack free ≡ some rest
      → (free ≡ rest) ⊎ ((length free < cache_stack) × (rest ≡ stack ∷ free))
  unfolding free_stack
  free_stack_cases free rest cache_stack stack e =
      elim (Bool-cases (ltb 0 cache_stack && ltb (length free) cache_stack)) [
        | inl cached ↦
            let same : some (stack ∷ free) ≡ some rest = rw cached at e in inr (ground arith, cc)
        | inr full ↦ elim (Bool-cases (sys.munmap stack)) [
          | inl freed ↦ let same : some free ≡ some rest = rw (full, freed) at e in inl cc
          | inr failed ↦ let nothing = rw (full, failed) at e in cc
        ]
      ]

  event-Separate : (m n : StackPool) → Event sys most m n → Separate most m → Separate most n
  event-Separate m _ (construct cache_stack stack free small e) (once, few) =
      elim (allocate_stack_cases (m.free) (m.used) free cache_stack stack e) [
        | inl (got, same) ↦
            let held : (x : ℕ) → count x m.free + count x (stack ∷ m.used) ≤ 1 =
              (λ x. count-cons x stack (m.free) (m.used) (fresh m stack got) (once x)) in
            (rw same at held, rw same at few)
        | inr same ↦ (
          λ x. omega (
            arith,
            once x,
            ap (count x) same,
            count_head x stack free,
            count_head x stack (m.used),
          ),
          omega (arith, few, ap length same),
        )
      ]
  event-Separate m _ (destroy cache_stack stack free front back small at e) (once, few) =
      elim (free_stack_cases (m.free) free cache_stack stack e) [
        | inl same ↦ (
          λ x.
              omega (
                arith,
                once x,
                ap (count x) same,
                ap (count x) at,
                count_middle x stack front back,
              ),
          omega (arith, few, ap length same),
        )
        | inr (room, same) ↦ (
          λ x. omega (
            arith,
            once x,
            ap (count x) same,
            ap (count x) at,
            count_middle x stack front back,
            count_head x stack (m.free),
          ),
          omega (arith, small, room, ap length same),
        )
      ]

  -- Whatever coroutines are constructed and destroyed, a stack is never cached twice, held by two
  -- coroutines or held and cached at once, and the free list has at most as many stacks as the largest
  -- `_cacheStack`, if mmap gives only addresses that are not mapped.
  pub Happens-Separate : (m : StackPool) → Happens sys most m → Separate most m
  unfolding count
  Happens-Separate m start = ((λ x. omega arith), omega arith)
  Happens-Separate m (next prior _ before event) =
      event-Separate prior m event (Happens-Separate prior before)
