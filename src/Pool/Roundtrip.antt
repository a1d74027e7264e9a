-- ===== src/Pool/Roundtrip.antt =====
-- original, poolSize and toBytes against each other.
use libglim.Base.{
  ℕ, suc, ◌+◌, ◌-◌, ◌*◌, ◌%◌, ◌^◌, ◌≤◌, ◌<◌, ◌≡◌, refl, sym, ap, ◌∙◌, true, false, List, [], arith,
  length, some, ◌⊎◌, inl, inr, le→leb, lt→ltb, le→ltb,
}
use libglim.Pool.{original, pool_size, uint32_at, next_offset, nearly_reached, bytes_from}
use libglim.Pool.Bytes.{uint32_at_lem}
use libglim.Pool.Written.{Written, start, start_above, start_apart}

not-nearly_reached : (a b : ℕ) → b + 4 ≤ a → a < 2 ^ 31 → nearly_reached a b ≡ false
unfolding nearly_reached
not-nearly_reached a b h small = le→ltb _ _ (omega arith)

nearly_reached_lem : (a b : ℕ) → a < b + 4 → a < 2 ^ 31 → b < 2 ^ 31 → nearly_reached a b ≡ true
unfolding nearly_reached
nearly_reached_lem a b h small low = lt→ltb _ _ (omega arith)

header_lem :
    (v : ℕ → List ℕ) (size : ℕ) (pool : List ℕ)
    → Written v size size pool
    → start v size size < 2 ^ 24
    → uint32_at pool 0 ≡ some (4 + size * 4)
header_lem v size pool w small =
    let above = start_above v size size in
    uint32_at_lem pool 0 (4 + size * 4) (omega (arith, w.total)) w.header (omega arith)

offset_lem :
    (v : ℕ → List ℕ) (size i : ℕ) (pool : List ℕ)
    → Written v size size pool
    → start v size size < 2 ^ 24
    → i < size
    → uint32_at pool (4 + i * 4) ≡ some (start v size i)
offset_lem v size i pool w small below =
    let above = start_above v size size in
    let apart = start_apart v size i size below in
    uint32_at_lem pool (4 + i * 4) (start v size i) (omega (arith, w.total)) (w.table i below)
      (omega arith)

next_offset_lem :
    (v : ℕ → List ℕ) (size i : ℕ) (pool : List ℕ)
    → Written v size size pool
    → start v size size < 2 ^ 24
    → i < size
    → next_offset pool (4 + size * 4) (4 + i * 4 + 4) ≡ some (start v size (suc i))
unfolding next_offset
next_offset_lem v size i pool w small below =
    let above = start_above v size size in
    elim (split (suc i) size (omega arith)) [
      | inl e ↦
          rw
            (nearly_reached_lem (4 + size * 4) (4 + i * 4 + 4) (omega arith) (omega arith)
              (omega arith))
            (ap some (w.total ∙ ap (start v size) (sym e)))
      | inr l ↦ rw (not-nearly_reached (4 + size * 4) (4 + i * 4 + 4) (omega arith) (omega arith)) (
          ap (uint32_at pool) (let there : 4 + i * 4 + 4 ≡ 4 + suc i * 4 = omega arith in there)
          ∙ offset_lem v size (suc i) pool w small l)
    ]
  where
    split : (i j : ℕ) → i ≤ j → (i ≡ j) ⊎ (i < j)
    split i j h = ground arith

original_step :
    (pool : List ℕ) (num values_start at first end n : ℕ)
    → 4 ≤ length pool
    → uint32_at pool 0 ≡ some values_start
    → values_start ≤ length pool
    → (4 + num * 4) % 2 ^ 32 ≡ at
    → nearly_reached values_start at ≡ false
    → uint32_at pool at ≡ some first
    → (at + 4) % 2 ^ 32 ≡ at + 4
    → next_offset pool values_start (at + 4) ≡ some end
    → (end + 2 ^ 32 - 1 + 2 ^ 32 - first) % 2 ^ 24 ≡ n
    → original pool num ≡ bytes_from pool first n
unfolding original
original_step pool num values_start at first end n long header inside where_at more offset four next
      len =
    rw (le→ltb (length pool) 4 long, header)
      (rw (le→ltb (length pool) values_start inside, where_at)
        (rw (more, four) (rw (offset) (rw (next) (rw len refl)))))

-- A field of a pool that toBytes wrote is read back.
pub original-Written :
    (v : ℕ → List ℕ) (size i : ℕ) (pool : List ℕ)
    → Written v size size pool
    → start v size size < 2 ^ 24
    → i < size
    → original pool i ≡ some (v i)
unfolding bytes_from start
original-Written v size i pool w small below =
    let above = start_above v size size in
    let apart = start_apart v size i size below in
    original_step pool i (4 + size * 4) (4 + i * 4) (start v size i) (start v size (suc i))
      (length (v i)) (omega (arith, w.total)) (header_lem v size pool w small)
      (omega (arith, w.total)) (omega arith)
      (not-nearly_reached (4 + size * 4) (4 + i * 4) (omega arith) (omega arith))
      (offset_lem v size i pool w small below) (omega arith)
      (next_offset_lem v size i pool w small below) (omega arith)
    ∙ rw (le→leb (start v size i + length (v i)) (length pool) (omega (arith, w.total)))
        (ap some (w.fields i below))

pub original-Written_past :
    (v : ℕ → List ℕ) (size i : ℕ) (pool : List ℕ)
    → Written v size size pool
    → start v size size < 2 ^ 24
    → size ≤ i
    → i < 2 ^ 29 - 1
    → original pool i ≡ some []
unfolding original
original-Written_past v size i pool w small past low =
    let above = start_above v size size in
    let at : (4 + i * 4) % 2 ^ 32 ≡ 4 + i * 4 = omega arith in
    rw (le→ltb (length pool) 4 (omega (arith, w.total)), header_lem v size pool w small, at)
      (rw
        (
          le→ltb (length pool) (4 + size * 4) (omega (arith, w.total)),
          nearly_reached_lem (4 + size * 4) (4 + i * 4) (omega arith) (omega arith) (omega arith),
        )
        refl)

pub pool_size-Written :
    (v : ℕ → List ℕ) (size : ℕ) (pool : List ℕ)
    → Written v size size pool
    → start v size size < 2 ^ 24
    → pool_size pool ≡ some size
unfolding pool_size
pool_size-Written v size pool w small =
    let above = start_above v size size in
    rw (le→ltb (length pool) 4 (omega (arith, w.total)), header_lem v size pool w small)
      (ap some (omega arith))
