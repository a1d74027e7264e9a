-- ===== src/Gstring/Copies.antt =====
-- Copies, `erase` and `c_str`.
use native.Mathlib.Nat.{add-zero}
use libglim.Base
use libglim.Base.{
  ℕ, zero, suc, ◌+◌, ◌-◌, ◌%◌, ◌^◌, ◌≤◌, ◌<◌, ◌≡◌, ◌≢◌, refl, sym, true, false, ◌||◌, ◌⊎◌, inl, inr,
  Option, Bool, none, some, List, [], ◌∷◌, ◌++◌, get_elem?, set, slice, splice, replicate, arith,
  ltb, leb, ◌==◌, if◌then◌else◌, Bool-cases, ==_ne, ◌∙◌, ap, get_elem?-set_self, get_elem?-set_ne,
  get_elem?-lt, length-splice, slice-splice, slice-splice_before, slice-slice, length-slice, le→leb,
  get_elem?-append_self, length-replicate,
}
use libglim.Memory.{Memory, Block, Ptr, malloced, is_live, read}
use libglim.Gstring.{
  Gstring, needs_freeing, copied_by_reference, power, capacity, length, set_length, pack,
}
use libglim.Gstring.Meta.{Fields, Fields-set_length, Fields-pack, own-Fields, length_arith}
use libglim.Gstring.Object.{
  State, done, ◌>>=◌, get, pure, shift, store, copy_construct, erase, c_str,
}
use libglim.Gstring.Valid.{contents, Held, IsValid, holds, Returns, Returns-bind}
use libglim.Gstring.Reserve.{allocate_lem, store_last, fresh, load_lem, allocated}
use libglim.Gstring.Regrown.{contents-Held, added_other}
use libglim.Gstring.Room.{Room}
use libglim.Gstring.Append.{grow_for, grow_for-Room, store_lem, read-Keeps, read-lt, length-read}
use libglim.Gstring.Limits.{load_from}

length_small : (g : Gstring) → length g < 2 ^ 24
length_small g = omega (arith, length_arith g)

-- An owned string of no capacity in the block that was added last.
exactly-Held :
    (m : Memory) (xs : List Block) (zs : List ℕ) (n : ℕ)
    → m.blocks ≡ xs ++ record { status = malloced; bytes = zs } ∷ []
    → n < 2 ^ 24
    → Base.length zs ≡ n
    → let p : Ptr = record { block = Base.length xs; offset = 0 } in
      Held
        (record { meta = pack true false 0 n; buf = some p })
        m
        p
        (record { status = malloced; bytes = zs })
exactly-Held m xs zs n e small size =
    let p : Ptr = record { block = Base.length xs; offset = 0 } in
    let f = Fields-pack true false 0 n (some p) (omega arith) in
    record {
      word = f.is_word;
      small = omega (arith, f.the_power);
      ptr = refl;
      at = rw e (get_elem?-append_self xs _);
      live = refl;
      in_length = omega (arith, f.the_length);
      in_capacity = inl (f.the_power);
      owner = λ _. (refl, refl);
    }

-- The copy of a string that is neither empty nor a reference is a valid string with the same bytes in a
-- block of its own; no block that was there changes.
pub copy_construct-copies :
    (gstr : Gstring) (q : Ptr) (ys : List ℕ) (s : State)
    → gstr.buf ≡ some q
    → read s.mem q (length gstr) ≡ some ys
    → 1 ≤ length gstr
    → copied_by_reference gstr ≡ false
    → length gstr ≤ s.mem.largest
    → Returns
        (λ _ t.
          IsValid t.self t.mem
          × (contents t.self t.mem ≡ ys)
          × (needs_freeing t.self ≡ true)
          × ((i : ℕ)
              → i < Base.length s.mem.blocks
              → get_elem? t.mem.blocks i ≡ get_elem? s.mem.blocks i))
        (copy_construct gstr s)
unfolding copy_construct slice
copy_construct-copies gstr q ys s e source long own fits =
    let n = length gstr in
    let size = length-read s.mem q n ys source in
    rw (==_ne n 0 (omega arith), own, allocate_lem n s fits)
      (rw
        (load_from gstr.buf n (allocated n s) q ys e (
          read-Keeps s.mem _ q n ys
            (added_other s.mem.blocks _ q.block (read-lt s.mem q n ys source)) source))
        (rw
          (store_last (allocated n s) s.mem.blocks
            (record { status = malloced; bytes = replicate n s.mem.junk }) ys refl refl refl
            (omega (arith, length-replicate n s.mem.junk)))
          (
            holds (fresh s.mem) _ held,
            contents-Held _ _ (fresh s.mem) _ held
                ∙ rw full_length (
                    slice-splice (replicate n s.mem.junk) 0 0 0 n ys (omega arith) (omega arith)
                      (omega (arith, length-replicate n s.mem.junk))),
            word.freeing,
            added_other s.mem.blocks _,
          )))
  where
    full_length :
        length (record { meta = pack true false 0 (length gstr); buf = some (fresh s.mem) })
        ≡ length gstr
    full_length =
        let f = Fields-pack true false 0 (length gstr) (some (fresh s.mem)) (omega arith) in
        omega (arith, f.the_length, length_small gstr)

    after : Memory
    after = record (s.mem) {
      blocks =
          s.mem.blocks
          ++ record { status = malloced; bytes = splice (replicate (length gstr) s.mem.junk) 0 ys }
            ∷ [];
    }

    word :
        Fields
          (record { meta = pack true false 0 (length gstr); buf = some (fresh s.mem) })
          true
          false
          0
          (length gstr % 2 ^ 24)
    word = Fields-pack true false 0 (length gstr) (some (fresh s.mem)) (omega arith)

    held :
        Held
          (record { meta = pack true false 0 (length gstr); buf = some (fresh s.mem) })
          after
          (fresh s.mem)
          (record { status = malloced; bytes = splice (replicate (length gstr) s.mem.junk) 0 ys })
    held =
        exactly-Held after s.mem.blocks (splice (replicate (length gstr) s.mem.junk) 0 ys)
          (length gstr) refl (length_small gstr)
          (length-splice (replicate (length gstr) s.mem.junk) 0 ys
            ∙ length-replicate (length gstr) s.mem.junk)

-- The state after `buf[len] = 0`.
abbrev terminated : State → Ptr → Block → State
terminated t p b = record t {
  mem = record (t.mem) {
    blocks =
        set t.mem.blocks p.block
          (record b { bytes = splice b.bytes (p.offset + length t.self) (0 ∷ []) });
  };
}

terminated-Held :
    (t : State) (p : Ptr) (b : Block)
    → Held t.self t.mem p b
    → let u = terminated t p b in
      Held t.self u.mem p (record b { bytes = splice b.bytes (p.offset + length t.self) (0 ∷ []) })
terminated-Held t p b h =
    let size = length-splice b.bytes (p.offset + length t.self) (0 ∷ []) in
    record {
      word = h.word;
      small = h.small;
      ptr = h.ptr;
      at = get_elem?-set_self t.mem.blocks p.block _ (get_elem?-lt t.mem.blocks p.block h.at);
      live = h.live;
      in_length = omega (arith, h.in_length);
      in_capacity = rw size (h.in_capacity);
      owner = h.owner;
    }

abbrev pub Terminated : State → Option Ptr → State → Type 0
Terminated s r t =
    (p : Ptr) × (r ≡ some p)
    × (contents t.self t.mem ≡ contents s.self s.mem)
    × (read t.mem p (length s.self + 1) ≡ some (contents s.self s.mem ++ 0 ∷ []))
    × IsValid t.self t.mem

read_held :
    (m : Memory) (p : Ptr) (b : Block) (n : ℕ)
    → get_elem? m.blocks p.block ≡ some b
    → is_live b ≡ true
    → p.offset + n ≤ Base.length b.bytes
    → read m p n ≡ some (slice b.bytes p.offset n)
unfolding read
read_held m p b n at live fits = ground arith

terminate_lem :
    (s t : State) (p : Ptr) (b : Block)
    → Room (length s.self + 1) s t p b
    → Returns (Terminated s) ((store (length t.self) (0 ∷ []) >>= λ _. get >>= λ h. pure h.buf) t)
terminate_lem s t p b r =
    let h = r.held in
    let u = terminated t p b in
    let held = terminated-Held t p b h in
    rw
      (store_lem (length t.self) (0 ∷ []) t p b h.ptr h.at h.live
        (omega (arith, r.room, r.enough, r.same_length)))
      (
        p,
        h.ptr,
        contents-Held _ _ p _ held
            ∙ slice-splice_before b.bytes p.offset (length t.self) (p.offset + length t.self)
                (0 ∷ []) (omega arith)
            ∙ sym (contents-Held t.self t.mem p b h)
            ∙ r.same_contents,
        read_held u.mem p _ (length s.self + 1) held.at held.live (
              omega (
                arith,
                length-splice b.bytes (p.offset + length t.self) (0 ∷ []),
                r.room,
                r.enough,
                r.same_length,
              ))
            ∙ ap some (
                slice-splice b.bytes p.offset (length t.self) (p.offset + length t.self)
                  (length s.self + 1) (0 ∷ []) refl (omega (arith, r.same_length))
                  (omega (arith, r.room, r.enough))
                ∙ ap (λ c. c ++ 0 ∷ []) (sym (contents-Held t.self t.mem p b h) ∙ r.same_contents)),
        holds p _ held,
      )

-- c_str() of a valid string that is not empty and shorter than 2 ^ 24 - 1 keeps the string, and its bytes
-- are followed by a zero, if malloc grants blocks of 2 ^ 24 bytes.
pub c_str-terminates :
    (s : State)
    → IsValid s.self s.mem
    → 1 ≤ length s.self
    → length s.self < 2 ^ 24 - 1
    → 2 ^ 24 ≤ s.mem.largest
    → Returns (Terminated s) (c_str s)
unfolding c_str
c_str-terminates s v long small fits =
    let c = ltb (capacity s.self) (length s.self + 1) in
    rw (==_ne (length s.self) 0 (omega arith)) (
      Returns-bind (λ _ t. (p : Ptr) × (b : Block) × Room (length s.self + 1) s t p b) _
        (grow_for c (length s.self + 1) s) _
        (grow_for-Room c (length s.self + 1) s (λ e. ground arith) v (omega arith) (omega arith)
          fits)
        (λ _ t (p, b, r). rw (← r.same_length) (terminate_lem s t p b r)))

set_length-buf : (n : ℕ) (g : Gstring) → (set_length n g).buf ≡ g.buf
unfolding set_length
set_length-buf n g = refl

abbrev cut_tail : State → Ptr → Block → ℕ → List ℕ
cut_tail s p b n = slice b.bytes (p.offset + n) (length s.self - n)

abbrev cut_block : State → Ptr → Block → ℕ → ℕ → Block
cut_block s p b pos count = record b {
  bytes = splice b.bytes (p.offset + pos) (cut_tail s p b (pos + count));
}

erase_eq :
    (pos count : ℕ) (s : State) (p : Ptr) (b : Block)
    → Held s.self s.mem p b
    → pos + count ≤ length s.self
    → erase pos count s
      ≡ done tt (record {
        self = set_length (length s.self - count) s.self;
        mem = record (s.mem) { blocks = set s.mem.blocks p.block (cut_block s p b pos count) };
      })
unfolding erase set_length
erase_eq pos count s p b h within =
    let cut = record s { self = set_length (length s.self - count) s.self } in
    let k = length s.self - (pos + count) in
    ground (
      arith,
      h.ptr,
      load_lem k cut (shift p (pos + count)) b h.at h.live (omega (arith, h.in_length)),
      store_lem pos (cut_tail s p b (pos + count)) cut p b h.ptr h.at h.live
          (omega (arith, length-slice b.bytes (p.offset + (pos + count)) k, h.in_length)),
    )

-- erase (pos, count) within the string cuts out `count` bytes from `pos`; the rest closes up.
pub erase-cuts :
    (pos count : ℕ) (s : State) (p : Ptr) (b : Block)
    → Held s.self s.mem p b
    → pos + count ≤ length s.self
    → let old = contents s.self s.mem in
      Returns
        (λ _ t.
          (contents t.self t.mem
            ≡ slice old 0 pos ++ slice old (pos + count) (length s.self - (pos + count)))
          × IsValid t.self t.mem)
        (erase pos count s)
erase-cuts pos count s p b h within = rw (erase_eq pos count s p b h within) (
  contents-Held _ _ p _ held
      ∙ rw (new_length, contents-Held s.self s.mem p b h)
          (slice-splice b.bytes p.offset pos (p.offset + pos) (length s.self - count)
              (cut_tail s p b (pos + count)) refl (omega (arith, tail_length))
              (omega (arith, h.in_length))
            ∙ rw (
              slice-slice b.bytes p.offset (length s.self) 0 pos (omega arith),
              slice-slice b.bytes p.offset (length s.self) (pos + count)
                  (length s.self - (pos + count)) (omega arith),
              add-zero,
            )),
  holds p _ held,
)
  where
    f :
        Fields
          (set_length (length s.self - count) s.self)
          (needs_freeing s.self)
          (copied_by_reference s.self)
          (power s.self)
          ((length s.self - count) % 2 ^ 24)
    f = Fields-set_length _ _ s.self _ _ (length s.self - count) (own-Fields s.self h.word)

    new_length : length (set_length (length s.self - count) s.self) ≡ length s.self - count
    new_length = omega (arith, f.the_length, length_small s.self)

    tail_length : Base.length (cut_tail s p b (pos + count)) ≡ length s.self - (pos + count)
    tail_length = length-slice b.bytes (p.offset + (pos + count)) _ (omega (arith, h.in_length))

    after : Memory
    after = record (s.mem) { blocks = set s.mem.blocks p.block (cut_block s p b pos count) }

    size :
        Base.length (splice b.bytes (p.offset + pos) (cut_tail s p b (pos + count)))
        ≡ Base.length b.bytes
    size = length-splice b.bytes (p.offset + pos) (cut_tail s p b (pos + count))

    held : Held (set_length (length s.self - count) s.self) after p (cut_block s p b pos count)
    held = record {
      word = f.is_word;
      small = omega (arith, f.the_power, h.small);
      ptr = set_length-buf (length s.self - count) s.self ∙ h.ptr;
      at = get_elem?-set_self s.mem.blocks p.block _ (get_elem?-lt s.mem.blocks p.block h.at);
      live = h.live;
      in_length = omega (arith, new_length, size, h.in_length);
      in_capacity = rw (f.the_power, size) h.in_capacity;
      owner = λ own. h.owner (sym (f.freeing) ∙ own);
    }
