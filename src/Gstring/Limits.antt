-- ===== src/Gstring/Limits.antt =====
-- Where the string's bookkeeping fails: a length of 2 ^ 24, `reserve` below the length, assignment into
-- a buffer of somebody else, and a string appended to itself.
use native.Mathlib.Nat.{pow-le-pow_right, le_trans}
use libglim.Base
use libglim.Base.{
  ℕ, zero, suc, ◌+◌, ◌-◌, ◌%◌, ◌^◌, ◌≤◌, ◌<◌, ◌≡◌, ◌≢◌, refl, sym, true, false, ◌||◌, ◌&&◌, ◌⊎◌,
  inl, inr, Option, Bool, none, some, List, [], ◌∷◌, ◌++◌, get_elem?, set, slice, splice, arith,
  ltb, leb, ◌==◌, if◌then◌else◌, Bool-cases, get_elem?-append_left, length-set, le→leb, lt→ltb, ◌∙◌,
  ap, get_elem?-set_self, get_elem?-set_ne, get_elem?-lt, length-splice, slice-splice,
}
use libglim.Memory.{Memory, Block, Ptr, freed, is_live, is_malloced, read, free}
use libglim.Memory.Laws.{length-resized}
use libglim.Gstring.{Gstring, needs_freeing, power, capacity, length, set_power, pack}
use libglim.Gstring.Meta.{
  Fields, Fields-set_length, Fields-pack, Fields-buf, Fields-set_power, own-Fields,
}
use libglim.Gstring.Object.{
  State, done, fault, reserve, load, append, append_char, append_gstring, copy_assign, destroy,
  release, finish,
}
use libglim.Gstring.Valid.{Held, IsValid, blank, holds, Returns, Returns-bind}
use libglim.Gstring.Reserve.{rebuffer_owned, moved, fresh, grow_lem, below_bound}
use libglim.Gstring.Regrown.{moved_last}
use libglim.Gstring.Room.{Room, reserve_exact, reserve_grows}
use libglim.Gstring.Append.{
  grow_for, grow_for-Room, store_lem, load-read, length-read, capacity_lem,
}

-- A string of 2 ^ 24 - 1 bytes is empty after one more `append (char)`: the length field wraps around.
pub append_char-wraps :
    (ch : ℕ) (s : State)
    → IsValid s.self s.mem
    → length s.self ≡ 2 ^ 24 - 1
    → 2 ^ 24 ≤ s.mem.largest
    → Returns (λ _ t. length t.self ≡ 0) (append_char ch s)
unfolding append_char
append_char-wraps ch s v full fits =
    let c = leb (capacity s.self) (length s.self) || leb (capacity s.self) 1 in
    Returns-bind (λ _ t. (p : Ptr) × (b : Block) × Room (length s.self + 1) s t p b)
      (λ _ t. length t.self ≡ 0) (grow_for c (length s.self + 1) s) _
      (grow_for-Room c (length s.self + 1) s (λ e. ground arith) v (omega arith) (omega arith) fits)
      (λ _ t (p, b, r).
        let h = r.held in
        let f = Fields-set_length _ _ t.self _ _ (length s.self + 1) (own-Fields t.self h.word) in
        rw (store_lem (length s.self) (ch ∷ []) t p b h.ptr h.at h.live (omega arith))
          (omega (arith, f.the_length)))

not-IsValid_short :
    (g : Gstring) (m : Memory) (p : Ptr) (b : Block)
    → g.buf ≡ some p
    → get_elem? m.blocks p.block ≡ some b
    → Base.length b.bytes < length g
    → ¬ IsValid g m
not-IsValid_short g m p b e at short (blank w none_buf c l) = cc
not-IsValid_short g m p b e at short (holds q c h) = ground (arith, h.in_length)

-- `reserve (0)` and `reserve (1)` on an owned string of two bytes or more that keeps no capacity (as
-- the copying constructors make it) shrink the buffer to one byte and keep the length.
pub reserve-shrinks :
    (to : ℕ) (s : State) (p : Ptr) (b : Block)
    → Held s.self s.mem p b
    → needs_freeing s.self ≡ true
    → power s.self ≡ 0
    → 2 ≤ length s.self
    → to ≤ 1
    → 1 ≤ s.mem.largest
    → Returns (λ _ t. ¬ IsValid t.self t.mem) (reserve to s)
unfolding reserve
reserve-shrinks to s p b h own exact long small fits =
    rw (reserve_exact to s (rw exact (ground arith)) exact) (
      rw (exact, rebuffer_owned 0 s p b h own fits)
        (not-IsValid_short _ _ _ _ refl (moved_last s.mem.blocks p.block _ _)
          (omega (arith, length-resized b.bytes 1 s.mem.junk, shrunk_length))))
  where
    shrunk_length :
        length (record (set_power 0 s.self) { buf = some (fresh s.mem) }) ≡ length s.self
    shrunk_length =
        let f =
          Fields-buf _ _ (set_power 0 s.self) _ _ (some (fresh s.mem))
            (Fields-set_power _ _ s.self _ _ 0 (own-Fields s.self h.word) (omega arith)) in
        f.the_length

pub load_from :
    (o : Option Ptr) (n : ℕ) (s : State) (q : Ptr) (ys : List ℕ)
    → o ≡ some q
    → read s.mem q n ≡ some ys
    → load o n s ≡ done ys s
load_from o n s q ys e h = rw e (load-read n s q ys h)

destroy_foreign :
    (t : State) (p : Ptr) (b : Block)
    → t.self.buf ≡ some p
    → needs_freeing t.self ≡ true
    → get_elem? t.mem.blocks p.block ≡ some b
    → is_malloced b ≡ false
    → destroy t ≡ fault
unfolding destroy release free
destroy_foreign t p b e own at alien = ground arith

-- Assigning to a string that reuses somebody else's buffer (an array on the stack) sets FREE_FLAG on
-- it, and the destructor then frees memory that `malloc` did not make.
pub copy_assign-frees_foreign :
    (gstr : Gstring) (q : Ptr) (ys : List ℕ) (s : State) (p : Ptr) (b : Block)
    → Held s.self s.mem p b
    → is_malloced b ≡ false
    → power s.self ≢ 0
    → gstr.buf ≡ some q
    → length gstr ≤ capacity s.self
    → read s.mem q (length gstr) ≡ some ys
    → Returns (λ _ t. destroy t ≡ fault) (copy_assign gstr s)
unfolding copy_assign finish
copy_assign-frees_foreign gstr q ys s p b h alien big e fits source =
    rw (le→leb _ _ fits, lt→ltb _ _ two)
      (rw (load_from gstr.buf (length gstr) s q ys e source) (
        rw (store_lem 0 ys s p b h.ptr h.at h.live within) (
          destroy_foreign _ p _ h.ptr free_word.freeing
            (get_elem?-set_self s.mem.blocks p.block _ (get_elem?-lt s.mem.blocks p.block h.at))
            alien)))
  where
    free_word :
        Fields
          (record (s.self) { meta = pack true false (power s.self) (length gstr) })
          true
          false
          (power s.self)
          (length gstr % 2 ^ 24)
    free_word =
        Fields-pack true false (power s.self) (length gstr) s.self.buf (omega (arith, h.small))

    two : 1 < capacity s.self
    two = omega (
      arith,
      capacity_lem s.self,
      pow-le-pow_right {n = 2} (omega arith) (let pos : 1 ≤ power s.self = omega arith in pos),
    )

    room : p.offset + 2 ^ power s.self ≤ Base.length b.bytes
    room = elim h.in_capacity [ inl z ↦ absurd (big z) | inr r ↦ r ]

    within : p.offset + 0 + Base.length ys ≤ Base.length b.bytes
    within = omega (arith, room, length-read s.mem q _ ys source, capacity_lem s.self)

load_freed :
    (o : Option Ptr) (n : ℕ) (t : State) (p : Ptr) (b : Block)
    → o ≡ some p
    → 1 ≤ n
    → get_elem? t.mem.blocks p.block ≡ some b
    → is_live b ≡ false
    → load o n t ≡ fault
unfolding load read
load_freed o n t p b e some_bytes at dead = ground arith

freed_block :
    (blocks : List Block) (i : ℕ) (b y : Block)
    → get_elem? blocks i ≡ some b
    → get_elem? (set blocks i (record b { status = freed }) ++ y ∷ []) i
      ≡ some (record b { status = freed })
freed_block blocks i b y at =
    let below = get_elem?-lt blocks i at in
    get_elem?-append_left (set blocks i _) (y ∷ []) i
      (omega (arith, length-set blocks i (record b { status = freed })))
    ∙ get_elem?-set_self blocks i _ below

reserve_moves :
    (need : ℕ) (s : State) (p : Ptr) (b : Block)
    → Held s.self s.mem p b
    → needs_freeing s.self ≡ true
    → capacity s.self < need
    → need ≤ 2 ^ 24
    → 2 ^ 24 ≤ s.mem.largest
    → (q : ℕ) × (reserve need s ≡ done tt (moved q s p b))
reserve_moves need s p b h own short fit fits =
    let less : ltb (2 ^ power s.self) need ≡ true =
      lt→ltb _ _ (omega (arith, capacity_lem s.self)) in
    let (q, found, enough, above, below) =
      grow_lem (31 - power s.self) (power s.self + 1) 24 need
        (below_bound (power s.self) 24 need h.small fit less) (omega (arith, h.small)) fit in
    (
      q,
      rw (reserve_grows need q s h.small less found below) (
          rebuffer_owned q s p b h own
            (le_trans (pow-le-pow_right {n = 2} (omega arith) below) fits)),
    )

-- `gs << gs` on an owned string that is not empty, whose buffer is too small for twice the bytes and whose
-- length doubled is at most 2 ^ 24, is a fault, and what `reserve` has done before has freed the buffer that
-- is to be appended. malloc grants blocks of 2 ^ 24 bytes.
pub append_self-faults :
    (s : State) (p : Ptr) (b : Block)
    → Held s.self s.mem p b
    → needs_freeing s.self ≡ true
    → 1 ≤ length s.self
    → capacity s.self < length s.self + length s.self
    → length s.self + length s.self ≤ 2 ^ 24
    → 2 ^ 24 ≤ s.mem.largest
    → (append_gstring s.self s ≡ fault)
      × Returns
          (λ _ t. get_elem? t.mem.blocks p.block ≡ some (record b { status = freed }))
          (reserve (length s.self + length s.self) s)
unfolding append_gstring append
append_self-faults s p b h own long short small fits =
    let need = length s.self + length s.self in
    let whole : need % 2 ^ 32 ≡ need = omega arith in
    let (q, moves) = reserve_moves need s p b h own short small fits in
    let gone = freed_block s.mem.blocks p.block b _ h.at in
    (
      rw whole (
          rw (lt→ltb (capacity s.self) need short) (
            rw moves (
              rw
                (load_freed s.self.buf (length s.self) (moved q s p b) p
                  (record b { status = freed }) h.ptr long gone refl)
                refl))),
      rw moves gone,
    )
