-- ===== src/Gstring/Reserve.antt =====
-- `reserve`: what the new buffer holds.
use libglim.Base
use libglim.Base.{
  ℕ, zero, suc, ◌+◌, ◌-◌, ◌^◌, ◌≤◌, ◌<◌, ◌≡◌, ◌≢◌, refl, sym, true, false, ◌⊎◌, inl, inr, Option,
  none, some, List, [], ◌∷◌, ◌++◌, get_elem?, set, slice, splice, replicate, arith, ltb, le→ltb,
  lt→ltb, leb, get_elem?-append_self, get_elem?-append_left, get_elem?-lt, length-slice,
  length-replicate, Bool-cases, ap, ℕ_discrete,
}
use libglim.Memory.{
  Memory, Block, Ptr, malloced, freed, is_live, is_malloced, resized, malloc, realloc, read, write,
}
use libglim.Gstring.{needs_freeing, length, set_power, set_free}
use libglim.Gstring.Object.{
  State, done, grow, rebuffer, reallocate, allocate, copy_old, load, store,
}
use libglim.Gstring.Valid.{Held}

pub below_bound : (p n to : ℕ) → p ≤ n → to ≤ 2 ^ n → ltb (2 ^ p) to ≡ true → p + 1 ≤ n
below_bound p n to h e less = elim (ℕ_discrete p n) [
  | yes same ↦ absurd (ground (arith, ap (λ k. 2 ^ k) same))
  | no other ↦ omega arith
]

-- `grow` finds a power that is enough, and no more than any bound that is enough.
pub grow_lem :
    (k p n to : ℕ)
    → p ≤ n
    → n < p + k
    → to ≤ 2 ^ n
    → (q : ℕ) × (grow k p to ≡ some q) × (to ≤ 2 ^ q) × (p ≤ q) × (q ≤ n)
unfolding grow
grow_lem zero p n to h g e = absurd (omega arith)
grow_lem (suc k) p n to h g e = elim (Bool-cases (ltb (2 ^ p) to)) [
  | inl less ↦
      let (q, found, enough, above, below) =
        grow_lem k (p + 1) n to (below_bound p n to h e less) (omega arith) e in
      (q, rw less found, enough, omega arith, below)
  | inr more ↦ (p, rw more, ground arith, omega arith, h)
]

abbrev pub fresh : Memory → Ptr
fresh m = record { block = Base.length m.blocks; offset = 0 }

-- An owned buffer is moved by realloc.
reallocate_owned :
    (n : ℕ) (s : State) (p : Ptr) (b : Block)
    → s.self.buf ≡ some p
    → get_elem? s.mem.blocks p.block ≡ some b
    → is_malloced b ≡ true
    → p.offset ≡ 0
    → n ≤ s.mem.largest
    → reallocate n s
      ≡ done true (record {
        self = record (s.self) { buf = some (fresh s.mem) };
        mem = record (s.mem) {
          blocks =
              set s.mem.blocks p.block (record b { status = freed })
              ++ record { status = malloced; bytes = resized b.bytes n s.mem.junk } ∷ [];
        };
      })
unfolding reallocate realloc
reallocate_owned n s p b e at heap start fits = ground arith

-- The state after a `malloc` of `n` bytes.
abbrev pub allocated : ℕ → State → State
allocated n s = record {
  self = record (s.self) { buf = some (fresh s.mem) };
  mem = record (s.mem) {
    blocks = s.mem.blocks ++ record { status = malloced; bytes = replicate n s.mem.junk } ∷ [];
  };
}

pub allocate_lem :
    (n : ℕ) (s : State) → n ≤ s.mem.largest → allocate n s ≡ done true (allocated n s)
unfolding allocate malloc
allocate_lem n s fits = ground arith

-- The state after realloc has moved the buffer to a new one of 2 ^ q bytes.
abbrev pub moved : ℕ → State → Ptr → Block → State
moved q s p b = record {
  self = record (set_power q s.self) { buf = some (fresh s.mem) };
  mem = record (s.mem) {
    blocks =
        set s.mem.blocks p.block (record b { status = freed })
        ++ record { status = malloced; bytes = resized b.bytes (2 ^ q) s.mem.junk } ∷ [];
  };
}

pub rebuffer_owned :
    (q : ℕ) (s : State) (p : Ptr) (b : Block)
    → Held s.self s.mem p b
    → needs_freeing s.self ≡ true
    → 2 ^ q ≤ s.mem.largest
    → rebuffer q s ≡ done tt (moved q s p b)
unfolding rebuffer set_power
rebuffer_owned q s p b h own fits = ground (
  arith,
  reallocate_owned (2 ^ q) (record s { self = set_power q s.self }) p b h.ptr h.at (h.owner own).0
      (h.owner own).1,
)

pub load_lem :
    (n : ℕ) (s : State) (p : Ptr) (b : Block)
    → get_elem? s.mem.blocks p.block ≡ some b
    → is_live b ≡ true
    → p.offset + n ≤ Base.length b.bytes
    → load (some p) n s ≡ done (slice b.bytes p.offset n) s
unfolding load read slice
load_lem zero s p b at live fits = refl
load_lem (suc n) s p b at live fits = ground arith

set-append_self :
    (xs : List Block) (y z : Block) → set (xs ++ y ∷ []) (Base.length xs) z ≡ xs ++ z ∷ []
set-append_self [] y z = refl
set-append_self (x ∷ xs) y z = ap (◌∷◌ x) (set-append_self xs y z)

-- A write at the start of the block that was allocated last.
pub store_last :
    (s : State) (xs : List Block) (b : Block) (ys : List ℕ)
    → s.mem.blocks ≡ xs ++ b ∷ []
    → s.self.buf ≡ some (record { block = Base.length xs; offset = 0 })
    → is_live b ≡ true
    → Base.length ys ≤ Base.length b.bytes
    → store 0 ys s
      ≡ done tt (record s {
        mem = record (s.mem) { blocks = xs ++ record b { bytes = splice b.bytes 0 ys } ∷ [] };
      })
unfolding store write
store_last s xs b ys shape ptr live fits = ground (
  arith,
  get_elem?-append_self xs b,
  set-append_self xs b (record b { bytes = splice b.bytes 0 ys }),
)

pub rebuffer_view :
    (q : ℕ) (s : State) (p : Ptr) (b : Block)
    → Held s.self s.mem p b
    → needs_freeing s.self ≡ false
    → length s.self ≤ 2 ^ q
    → 2 ^ q ≤ s.mem.largest
    → rebuffer q s
      ≡ done tt (record {
        self = set_free (record (set_power q s.self) { buf = some (fresh s.mem) });
        mem = record (s.mem) {
          blocks =
              s.mem.blocks
              ++ record {
                status = malloced;
                bytes =
                    splice
                      (replicate (2 ^ q) s.mem.junk)
                      0
                      (slice b.bytes p.offset (length s.self));
              }
                ∷ [];
        };
      })
unfolding rebuffer set_power copy_old
rebuffer_view q s p b h lent enough fits = ground (
  arith,
  allocate_lem (2 ^ q) (record s { self = set_power q s.self }) fits,
  load_lem (length s.self)
      (record {
        self = record (set_power q s.self) { buf = some (fresh s.mem) };
        mem = record (s.mem) {
          blocks =
              s.mem.blocks
              ++ record { status = malloced; bytes = replicate (2 ^ q) s.mem.junk } ∷ [];
        };
      })
      p b,
  get_elem?-append_left s.mem.blocks
      (record { status = malloced; bytes = replicate (2 ^ q) s.mem.junk } ∷ []) p.block,
  get_elem?-lt s.mem.blocks p.block h.at,
  length-slice b.bytes p.offset (length s.self) h.in_length,
  length-replicate (2 ^ q) s.mem.junk,
  h.ptr,
  store_last
      (record {
        self = record (set_power q s.self) { buf = some (fresh s.mem) };
        mem = record (s.mem) {
          blocks =
              s.mem.blocks
              ++ record { status = malloced; bytes = replicate (2 ^ q) s.mem.junk } ∷ [];
        };
      })
      s.mem.blocks (record { status = malloced; bytes = replicate (2 ^ q) s.mem.junk })
      (slice b.bytes p.offset (length s.self)),
)

pub rebuffer_blank :
    (q : ℕ) (s : State)
    → s.self.buf ≡ none
    → 2 ^ q ≤ s.mem.largest
    → rebuffer q s
      ≡ done tt (record {
        self = set_free (record (set_power q s.self) { buf = some (fresh s.mem) });
        mem = record (s.mem) {
          blocks =
              s.mem.blocks
              ++ record { status = malloced; bytes = replicate (2 ^ q) s.mem.junk } ∷ [];
        };
      })
unfolding rebuffer set_power
rebuffer_blank q s e fits =
    ground (arith, allocate_lem (2 ^ q) (record s { self = set_power q s.self }) fits)
