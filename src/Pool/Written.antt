-- ===== src/Pool/Written.antt =====
-- What toBytes writes: the offsets and the fields, each where it belongs.
use libglim.Base.{
  ℕ, zero, suc, ◌+◌, ◌*◌, ◌^◌, ◌≤◌, ◌<◌, ◌≡◌, refl, ap, subst, ◌∙◌, List, [], ◌∷◌, ◌++◌,
  append_assoc, arith, length, slice, splice, Option, some, replicate, length-append, length-splice,
  slice-splice_before, ◌⊎◌, inl, inr,
}
use libglim.Pool.{network_order, placeholders, store_fields, write_pool}
use libglim.Pool.Bytes.{
  slice-splice_after, slice-append_left, slice-append_middle, slice-splice_self, extend_lem,
}

-- Where the field `i` starts in a pool of `size` fields `v`.
unfoldable pub start : (ℕ → List ℕ) → ℕ → ℕ → ℕ
start v size zero = 4 + size * 4
start v size (suc i) = start v size i + length (v i) + 1

pub start_above : (v : ℕ → List ℕ) (size i : ℕ) → 4 + size * 4 ≤ start v size i
unfolding start
start_above v size zero = omega arith
start_above v size (suc i) = omega (arith, start_above v size i)

-- A field ends before a later one starts.
pub start_apart :
    (v : ℕ → List ℕ) (size i j : ℕ) → i < j → start v size i + length (v i) + 1 ≤ start v size j
unfolding start
start_apart v size i zero h = elim h [ ]
start_apart v size i (suc j) h = elim (split i j (omega arith)) [
  | inl e ↦ rw e (omega arith)
  | inr l ↦ omega (arith, start_apart v size i j l)
]
  where
    split : (i j : ℕ) → i ≤ j → (i ≡ j) ⊎ (i < j)
    split i j h = ground arith

-- The first `j` of `size` fields are written.
pub record Written (v : ℕ → List ℕ) (size j : ℕ) (out : List ℕ) : Type 0 where
  pub total : length out ≡ start v size j
  pub header : slice out 0 4 ≡ network_order (4 + size * 4)
  pub table : (i : ℕ) → i < j → slice out (4 + i * 4) 4 ≡ network_order (start v size i)
  pub fields : (i : ℕ) → i < j → slice out (start v size i) (length (v i)) ≡ v i

-- What one round of the loop leaves.
abbrev round : List ℕ → List ℕ → ℕ → List ℕ
round out bytes num = splice (out ++ bytes ++ 0 ∷ []) (4 + num * 4) (network_order (length out))

length-round :
    (out bytes : List ℕ) (num : ℕ) → length (round out bytes num) ≡ length out + length bytes + 1
length-round out bytes num =
    length-splice (out ++ bytes ++ 0 ∷ []) (4 + num * 4) _
    ∙ omega (arith, length-append (out ++ bytes) (0 ∷ []), length-append out bytes)

Written-round :
    (v : ℕ → List ℕ) (size j : ℕ) (out : List ℕ)
    → j < size
    → Written v size j out
    → Written v size (suc j) (round out (v j) j)
unfolding start
Written-round v size j out below w = record {
  total = length-round out (v j) j ∙ omega (arith, w.total);
  header =
      slice-splice_before longer 0 4 (4 + j * 4) offset (omega arith)
      ∙ kept 0 4 (omega (arith, table_inside))
      ∙ w.header;
  table = λ i h. elim (split i j (omega arith)) [
    | inl e ↦ rw e (
        slice-splice_self longer (4 + j * 4) offset (omega (arith, size_longer, table_inside))
        ∙ ap network_order w.total)
    | inr l ↦
        slice-splice_before longer (4 + i * 4) 4 (4 + j * 4) offset (omega arith)
        ∙ kept (4 + i * 4) 4 (omega (arith, table_inside))
        ∙ w.table i l
  ];
  fields = λ i h. elim (split i j (omega arith)) [
    | inl e ↦ rw e (last ∙ own)
    | inr l ↦
        slice-splice_after longer (start v size i) (length (v i)) (4 + j * 4) offset
          (omega (arith, start_above v size i))
        ∙ kept (start v size i) (length (v i)) (omega (arith, w.total, start_apart v size i j l))
        ∙ w.fields i l
  ];
}
  where
    longer : List ℕ
    longer = out ++ v j ++ 0 ∷ []

    offset : List ℕ
    offset = network_order (length out)

    size_longer : length longer ≡ length out + length (v j) + 1
    size_longer = omega (arith, length-append (out ++ v j) (0 ∷ []), length-append out (v j))

    table_inside : 4 + size * 4 ≤ length out
    table_inside = omega (arith, w.total, start_above v size j)

    kept : (o n : ℕ) → o + n ≤ length out → slice longer o n ≡ slice out o n
    kept o n h =
        ap (λ xs. slice xs o n) (append_assoc out (v j) (0 ∷ []))
        ∙ slice-append_left out (v j ++ 0 ∷ []) o n h

    split : (i j : ℕ) → i ≤ j → (i ≡ j) ⊎ (i < j)
    split i j h = ground arith

    last :
        slice (round out (v j) j) (start v size j) (length (v j))
        ≡ slice longer (start v size j) (length (v j))
    last =
        slice-splice_after longer (start v size j) (length (v j)) (4 + j * 4) offset
          (omega (arith, start_above v size j))

    own : slice longer (start v size j) (length (v j)) ≡ v j
    own = rw (← w.total) (slice-append_middle out (v j) (0 ∷ []))

pub store_fields_lem :
    (v : ℕ → List ℕ) (field : ℕ → Option (List ℕ)) (size left j : ℕ) (out : List ℕ)
    → ((i : ℕ) → i < size → field i ≡ some (v i))
    → left + j ≡ size
    → start v size size < 2 ^ 24
    → Written v size j out
    → (pool : List ℕ) × (store_fields field left j out ≡ some pool) × Written v size size pool
unfolding store_fields
store_fields_lem v field size zero j out all e small w =
    (out, refl, subst (λ k. Written v size k out) (let whole : j ≡ size = omega arith in whole) w)
store_fields_lem v field size (suc left) j out all e small w =
    let below : j < size = omega arith in
    let fits = start_apart v size j size below in
    let total = length-append out (v j) in
    let (pool, run, done) =
      store_fields_lem v field size left (j + 1) (round out (v j) j) all (omega arith) small (
        subst (λ k. Written v size k (round out (v j) j)) (let e : suc j ≡ j + 1 = omega arith in e)
          (Written-round v size j out below w)) in
    (
      pool,
      rw (all j below) (
          rw (extend_lem out (v j) (omega (arith, w.total)))
            (rw (extend_lem (out ++ v j) (0 ∷ []) (omega (arith, w.total))) run)),
      done,
    )

placeholders_lem :
    (k : ℕ) (out : List ℕ)
    → 4 ≤ length out
    → length out + k * 4 < 2 ^ 24
    → (table : List ℕ) × (placeholders k out ≡ some table)
      × (length table ≡ length out + k * 4)
      × (slice table 0 4 ≡ slice out 0 4)
unfolding placeholders
placeholders_lem zero out h small = (out, refl, omega arith, refl)
placeholders_lem (suc k) out h small =
    let wider = out ++ replicate 4 0 in
    let len : length wider ≡ length out + 4 = length-append out (replicate 4 0) in
    let (table, run, total, same) = placeholders_lem k wider (omega arith) (omega arith) in
    (
      table,
      rw (extend_lem out (replicate 4 0) (omega arith)) run,
      omega arith,
      same ∙ slice-append_left out (replicate 4 0) 0 4 h,
    )

-- toBytes writes every field where its offset says, if the pool stays below 2 ^ 24 bytes.
pub write_pool-Written :
    (v : ℕ → List ℕ) (field : ℕ → Option (List ℕ)) (size : ℕ)
    → ((i : ℕ) → i < size → field i ≡ some (v i))
    → start v size size < 2 ^ 24
    → (pool : List ℕ) × (write_pool field size ≡ some pool) × Written v size size pool
unfolding write_pool start
write_pool-Written v field size all small =
    let head = network_order (4 + size * 4) in
    let above = start_above v size size in
    let (table, run, total, same) = placeholders_lem size head (omega arith) (omega arith) in
    let first : Written v size 0 table = record {
      total = total;
      header = same ∙ unfold slice in refl;
      table = λ i h. elim h [ ];
      fields = λ i h. elim h [ ];
    } in
    let (pool, stored, done) =
      store_fields_lem v field size size 0 table all (omega arith) small first in
    (pool, rw (extend_lem [] head (omega arith)) (rw run stored), done)
