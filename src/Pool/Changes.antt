-- ===== src/Pool/Changes.antt =====
-- set, current, toBytes and toBytesDelta of a pool.
use libglim.Base.{
  ℕ, zero, suc, ◌+◌, ◌-◌, ◌*◌, ◌%◌, ◌^◌, ◌≤◌, ◌<◌, ◌≡◌, ◌≢◌, refl, ap, subst, ◌∙◌, Bool, true,
  false, List, [], ◌∷◌, ◌++◌, arith, length, Option, some, none, ◌⊎◌, inl, inr, ==_ne, get_or, max,
  set, replicate, length-append, length-replicate, Bool-cases, Option-cases,
}
use libglim.Pool.{
  Pool, original, pool_size, to_bytes, to_bytes_from, to_bytes_delta, verified_changes, same_bytes,
  or_original, change_at, current, set_field,
}
use libglim.Pool.Written.{start, write_pool-Written}
use libglim.Pool.Roundtrip.{original-Written, original-Written_past, pool_size-Written}

-- The bytes of a pool with `size` fields: each is `v`'s, and there are no others.
abbrev pub Stores : (ℕ → List ℕ) → ℕ → List ℕ → Type 0
Stores v size bytes =
    (pool_size bytes ≡ some size)
    × ((i : ℕ) → i < size → original bytes i ≡ some (v i))
    × ((i : ℕ) → size ≤ i → i < 2 ^ 29 - 1 → original bytes i ≡ some [])

past_fields :
    (v : ℕ → List ℕ) (size : ℕ) (bytes : List ℕ)
    → Stores v size bytes
    → (i : ℕ) → size ≤ i
    → i < 2 ^ 29 - 1
    → original bytes i ≡ some []
past_fields v size bytes (count, fields, past) = past

to_bytes_from-Stores :
    (v : ℕ → List ℕ) (old : List ℕ) (size : ℕ) (p : Pool)
    → 1 ≤ length p.changes
    → ((i : ℕ) → i < size → or_original (change_at p i) old i ≡ some (v i))
    → start v size size < 2 ^ 24
    → (bytes : List ℕ) × (to_bytes_from old size p ≡ some bytes) × Stores v size bytes
unfolding to_bytes_from
to_bytes_from-Stores v old size p some_changes all small =
    let (bytes, run, w) =
      write_pool-Written v (λ i. or_original (change_at p i) old i) size all small in
    (
      bytes,
      rw (==_ne (length p.changes) 0 (λ e. omega (arith, e))) run,
      (
        pool_size-Written v size bytes w small,
        (λ i below. original-Written v size i bytes w small below),
        (λ i past low. original-Written_past v size i bytes w small past low),
      ),
    )

-- toBytes writes the current value of each field up to the last that was set: `original` reads it back
-- from the bytes, and an empty string for the numbers past those fields that are below 2 ^ 29 - 1. Some
-- field was set, the fields can be read, and the bytes stay below 2 ^ 24.
pub to_bytes-original :
    (v : ℕ → List ℕ) (p : Pool)
    → 1 ≤ length p.changes
    → ((i : ℕ) → i < length p.changes → current p i ≡ some (v i))
    → start v (length p.changes) (length p.changes) < 2 ^ 24
    → (bytes : List ℕ) × (to_bytes p ≡ some bytes) × Stores v (length p.changes) bytes
unfolding to_bytes current
to_bytes-original v p some_changes all small =
    to_bytes_from-Stores v p.bytes (length p.changes) p some_changes all small

-- A field of the stored pool that is not empty and lies past the last one set, and whose number is below
-- 2 ^ 29 - 1, is lost by toBytes: `original` gives an empty string for it from the bytes. Some field was
-- set, the fields up to there can be read, and the bytes stay below 2 ^ 24.
pub to_bytes-drops :
    (v : ℕ → List ℕ) (p : Pool) (i x : ℕ) (xs : List ℕ)
    → 1 ≤ length p.changes
    → ((k : ℕ) → k < length p.changes → current p k ≡ some (v k))
    → start v (length p.changes) (length p.changes) < 2 ^ 24
    → length p.changes ≤ i
    → i < 2 ^ 29 - 1
    → current p i ≡ some (x ∷ xs)
    → (bytes : List ℕ) × (to_bytes p ≡ some bytes)
      × (current p i ≡ some (x ∷ xs))
      × (original bytes i ≡ some [])
to_bytes-drops v p i x xs some_changes all small past low there =
    let (bytes, run, stores) = to_bytes-original v p some_changes all small in
    (bytes, run, there, past_fields v _ bytes stores i past low)

-- The offset of a field is computed on 32 bits: field numbers that differ by 2 ^ 30 are the same field.
pub original-aliases : (pool : List ℕ) (num : ℕ) → original pool (num + 2 ^ 30) ≡ original pool num
unfolding original
original-aliases pool num =
    let same : (4 + (num + 2 ^ 30) * 4) % 2 ^ 32 ≡ (4 + num * 4) % 2 ^ 32 = omega arith in
    rw same refl

same_bytes_lem : (xs ys : List ℕ) → same_bytes xs ys ≡ true → xs ≡ ys
unfolding same_bytes
same_bytes_lem [] [] e = refl
same_bytes_lem [] (y ∷ ys) e = cc
same_bytes_lem (x ∷ xs) [] e = cc
same_bytes_lem (x ∷ xs) (y ∷ ys) e = ground (arith, same_bytes_lem xs ys)

verified_changes-rest :
    (value : List ℕ) (rest : List (Option (List ℕ))) (old : List ℕ) (num : ℕ)
    → verified_changes (some value ∷ rest) old num ≡ some false
    → (original old num ≡ some value) × (verified_changes rest old (num + 1) ≡ some false)
unfolding verified_changes
verified_changes-rest value rest old num e = elim (Option-cases (original old num)) [
  | inl missing ↦ ground (arith, missing)
  | inr (from, found) ↦ elim (Bool-cases (same_bytes from value)) [
    | inl same ↦ (found ∙ ap some (same_bytes_lem from value same), ground (arith, found, same))
    | inr other ↦ ground (arith, found, other)
  ]
]

get_or-past : {A : Type 0} (xs : List A) (i : ℕ) (d : A) → length xs ≤ i → get_or xs i d ≡ d
get_or-past [] i d h = refl
get_or-past (x ∷ xs) zero d h = absurd (omega arith)
get_or-past (x ∷ xs) (suc i) d h = get_or-past xs i d (omega arith)

-- The changes from field `num` on are what the old pool holds.
verified_changes_lem :
    (changes : List (Option (List ℕ))) (old : List ℕ) (num i : ℕ) (value : List ℕ)
    → verified_changes changes old num ≡ some false
    → get_or changes i none ≡ some value
    → original old (num + i) ≡ some value
unfolding verified_changes
verified_changes_lem [] old num i value e there = cc
verified_changes_lem (none ∷ rest) old num zero value e there = cc
verified_changes_lem (none ∷ rest) old num (suc i) value e there =
    let at : num + suc i ≡ num + 1 + i = omega arith in
    rw at (verified_changes_lem rest old (num + 1) i value e there)
verified_changes_lem (some x ∷ rest) old num zero value e there =
    let at : num + 0 ≡ num = omega arith in
    rw at ((verified_changes-rest x rest old num e).0 ∙ there)
verified_changes_lem (some x ∷ rest) old num (suc i) value e there =
    let at : num + suc i ≡ num + 1 + i = omega arith in
    rw at (
      verified_changes_lem rest old (num + 1) i value (verified_changes-rest x rest old num e).1
        there)

-- When toBytesDelta finds no changes, every field that was set has the bytes that the old pool has.
pub to_bytes_delta-unchanged :
    (old bytes : List ℕ) (p : Pool) (i : ℕ) (value : List ℕ)
    → to_bytes_delta old p ≡ some (false, bytes)
    → change_at p i ≡ some value
    → (bytes ≡ []) × (original old i ≡ some value)
unfolding to_bytes_delta
to_bytes_delta-unchanged old bytes p i value e there =
    elim (Option-cases (verified_changes p.changes old 0)) [
      | inl stuck ↦ ground (arith, stuck)
      | inr (verdict, found) ↦ go verdict found
    ]
  where
    at : 0 + i ≡ i
    at = omega arith

    go :
        (verdict : Bool)
        → verified_changes p.changes old 0 ≡ some verdict
        → (bytes ≡ []) × (original old i ≡ some value)
    go true found = elim (Option-cases (pool_size old)) [
      | inl a ↦ ground (arith, found, a)
      | inr (m, a) ↦ elim (Option-cases (to_bytes_from old (max (length p.changes) m) p)) [
        | inl b ↦ ground (arith, found, a, b)
        | inr (out, b) ↦ ground (arith, found, a, b)
      ]
    ]
    go false found = (
      ground (arith, found),
      subst (λ k. original old k ≡ some value) at
          (verified_changes_lem p.changes old 0 i value found there),
    )

-- toBytesDelta with a change puts the fields that were set over those of the old pool: what `original`
-- reads back is the change, or else the old field. The fields can be read, and the bytes stay below
-- 2 ^ 24.
pub to_bytes_delta-merges :
    (v : ℕ → List ℕ) (old : List ℕ) (old_size : ℕ) (p : Pool)
    → verified_changes p.changes old 0 ≡ some true
    → pool_size old ≡ some old_size
    → ((i : ℕ)
        → i < max (length p.changes) old_size
        → or_original (change_at p i) old i ≡ some (v i))
    → start v (max (length p.changes) old_size) (max (length p.changes) old_size) < 2 ^ 24
    → (bytes : List ℕ) × (to_bytes_delta old p ≡ some (true, bytes))
      × Stores v (max (length p.changes) old_size) bytes
unfolding to_bytes_delta
to_bytes_delta-merges v old old_size p differs count all small =
    let (bytes, run, stores) =
      to_bytes_from-Stores v old _ p (nonempty p.changes differs) all small in
    (bytes, rw (differs, count) (rw run refl), stores)
  where
    nonempty :
        (changes : List (Option (List ℕ)))
        → verified_changes changes old 0 ≡ some true
        → 1 ≤ length changes
    nonempty [] e = unfold verified_changes in cc
    nonempty (x ∷ xs) e = omega arith

get_or-set_self :
    {A : Type 0} (xs : List A) (i : ℕ) (x d : A) → i < length xs → get_or (set xs i x) i d ≡ x
get_or-set_self [] i x d h = elim h [ ]
get_or-set_self (y ∷ xs) zero x d h = refl
get_or-set_self (y ∷ xs) (suc i) x d h = get_or-set_self xs i x d (omega arith)

get_or-set_ne :
    {A : Type 0} (xs : List A) (i j : ℕ) (x d : A) → i ≢ j → get_or (set xs i x) j d ≡ get_or xs j d
get_or-set_ne [] i j x d h = refl
get_or-set_ne (y ∷ xs) zero zero x d h = absurd (h refl)
get_or-set_ne (y ∷ xs) zero (suc j) x d h = refl
get_or-set_ne (y ∷ xs) (suc i) zero x d h = refl
get_or-set_ne (y ∷ xs) (suc i) (suc j) x d h = get_or-set_ne xs i j x d (λ e. h (ap suc e))

get_or-widen :
    {A : Type 0} (xs : List A) (n i : ℕ) (d : A) → get_or (xs ++ replicate n d) i d ≡ get_or xs i d
get_or-widen [] zero i d = refl
get_or-widen [] (suc n) zero d = refl
get_or-widen [] (suc n) (suc i) d = get_or-widen [] n i d
get_or-widen (x ∷ xs) n zero d = refl
get_or-widen (x ∷ xs) n (suc i) d = get_or-widen xs n i d

-- After set, `current` gives the new value for the field, and the others as before; the original
-- bytes do not change. A read-only pool refuses.
pub current-set_field :
    (num : ℕ) (value : List ℕ) (p : Pool)
    → (p.read_only ≡ true) × (set_field num value p ≡ none)
      ⊎ (q : Pool) × (set_field num value p ≡ some q)
        × (current q num ≡ some value)
        × ((i : ℕ) → num ≢ i → current q i ≡ current p i)
        × (q.bytes ≡ p.bytes)
unfolding set_field current
current-set_field num value p = elim (Bool-cases p.read_only) [
  | inl frozen ↦ inl (frozen, rw frozen refl)
  | inr thawed ↦
      let wide = p.changes ++ replicate (num + 1 - length p.changes) none in
      let room : num < length wide = omega (
        arith,
        length-append p.changes (replicate (num + 1 - length p.changes) none),
        length-replicate (num + 1 - length p.changes)
            (let nothing : Option (List ℕ) = none in nothing),
      ) in
      inr (
        record p { changes = set wide num (some value) },
        rw thawed refl,
        rw (get_or-set_self wide num (some value) none room) refl,
        (λ i other.
            rw
              (
                get_or-set_ne wide num i (some value) none other,
                get_or-widen p.changes (num + 1 - length p.changes) i none,
              )
              refl),
        refl,
      )
]
