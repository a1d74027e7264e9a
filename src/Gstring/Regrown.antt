-- ===== src/Gstring/Regrown.antt =====
-- After `reserve` has made a new buffer: the string owns a block of 2 ^ power bytes that starts with
-- the old contents, and no other block has changed.
use libglim.Base
use libglim.Base.{
  ℕ, zero, suc, ◌+◌, ◌-◌, ◌^◌, ◌≤◌, ◌<◌, ◌≡◌, ◌≢◌, refl, sym, Bool, true, false, ◌⊎◌, inl, inr,
  Option, none, some, List, [], ◌∷◌, ◌++◌, get_elem?, set, slice, splice, replicate, arith,
  Bool-cases, length-append, length-set, length-splice, length-slice, length-replicate,
  get_elem?-append_self, get_elem?-append_left, get_elem?-set_ne, get_elem?-lt, slice-splice, ap,
  ◌∙◌,
}
use libglim.Memory.{Memory, Block, Ptr, malloced, bytes_at, resized}
use libglim.Memory.Laws.{length-resized, slice-resized}
use libglim.Gstring.{
  Gstring, needs_freeing, copied_by_reference, power, length, set_power, set_free,
}
use libglim.Gstring.Meta.{Fields, Fields-set_power, Fields-set_free, Fields-buf, own-Fields}
use libglim.Gstring.Object.{State, rebuffer}
use libglim.Gstring.Valid.{contents, Held, Returns, Keeps}
use libglim.Gstring.Reserve.{fresh, rebuffer_owned, rebuffer_view, rebuffer_blank}

pub record Regrown (q : ℕ) (s t : State) (bytes : List ℕ) : Type 0 where
  pub fields : Fields t.self true (copied_by_reference s.self) q (length s.self)
  pub place : t.self.buf ≡ some (fresh s.mem)
  pub block :
      get_elem? t.mem.blocks (Base.length s.mem.blocks)
      ≡ some (record { status = malloced; bytes = bytes })
  pub size : Base.length bytes ≡ 2 ^ q
  pub kept : slice bytes 0 (length s.self) ≡ contents s.self s.mem
  pub frame : Keeps s.self s.mem t.mem
  -- A block that was not the string's own is left alone, also the one that it points into.
  pub foreign :
      needs_freeing s.self ≡ false
      → (i : ℕ) → i < Base.length s.mem.blocks
      → get_elem? t.mem.blocks i ≡ get_elem? s.mem.blocks i
  pub count : Base.length t.mem.blocks ≡ suc (Base.length s.mem.blocks)
  pub limit : t.mem.largest ≡ s.mem.largest

pub contents-Held :
    (g : Gstring) (m : Memory) (p : Ptr) (b : Block)
    → Held g m p b
    → contents g m ≡ slice b.bytes p.offset (length g)
unfolding contents bytes_at
contents-Held g m p b h = rw (h.ptr) (rw (h.at))

own_owned :
    (g : Gstring)
    → g.meta < 2 ^ 32
    → needs_freeing g ≡ true
    → Fields g true (copied_by_reference g) (power g) (length g)
own_owned g h own = record {
  freeing = own;
  by_reference = refl;
  the_power = refl;
  the_length = refl;
  is_word = h;
}

-- Blocks after one was freed and another was added at the end.
module _ (xs : List Block) (i : ℕ) (x y : Block) where
  pub moved_last : get_elem? (set xs i x ++ y ∷ []) (Base.length xs) ≡ some y
  moved_last = cc (length-set xs i x, get_elem?-append_self (set xs i x) y)

  moved_count : Base.length (set xs i x ++ y ∷ []) ≡ suc (Base.length xs)
  moved_count = omega (arith, length-append (set xs i x) (y ∷ []), length-set xs i x)

  pub moved_other :
      (j : ℕ) → j < Base.length xs → i ≢ j → get_elem? (set xs i x ++ y ∷ []) j ≡ get_elem? xs j
  moved_other j h ne =
      get_elem?-append_left (set xs i x) (y ∷ []) j (omega (arith, length-set xs i x))
      ∙ get_elem?-set_ne xs i j x ne

both : {b : Bool} → b ≡ true → b ≡ false → ⊥
both yes_true not_true = cc

pub rebuffer-Regrown_owned :
    (q : ℕ) (s : State) (p : Ptr) (b : Block)
    → Held s.self s.mem p b
    → needs_freeing s.self ≡ true
    → length s.self ≤ 2 ^ q
    → q < 64
    → 2 ^ q ≤ s.mem.largest
    → Returns (λ _ t. (bytes : List ℕ) × Regrown q s t bytes) (rebuffer q s)
rebuffer-Regrown_owned q s p b h own enough small fits = rw (rebuffer_owned q s p b h own fits) (
  resized b.bytes (2 ^ q) s.mem.junk,
  record {
    fields =
        Fields-buf true _ (set_power q s.self) q _ _
          (Fields-set_power true _ s.self _ _ q (own_owned s.self h.word own) small);
    place = refl;
    block = moved_last s.mem.blocks p.block _ _;
    size = length-resized b.bytes (2 ^ q) s.mem.junk;
    kept = cc (
      slice-resized b.bytes (length s.self) (2 ^ q) s.mem.junk enough (omega (arith, h.in_length)),
      contents-Held s.self s.mem p b h,
      (h.owner own).1,
    );
    frame =
        λ i below other. moved_other s.mem.blocks p.block _ _ i below (λ e. other (rw (h.ptr) e));
    foreign = λ not_own. absurd (both own not_own);
    count = moved_count s.mem.blocks p.block _ _;
    limit = refl;
  },
)

-- Blocks after one was added at the end.
module _ (xs : List Block) (y : Block) where
  added_count : Base.length (xs ++ y ∷ []) ≡ suc (Base.length xs)
  added_count = omega (arith, length-append xs (y ∷ []))

  pub added_other : (j : ℕ) → j < Base.length xs → get_elem? (xs ++ y ∷ []) j ≡ get_elem? xs j
  added_other j h = get_elem?-append_left xs (y ∷ []) j h

lent-Fields :
    (q : ℕ) (g : Gstring) (buf : Option Ptr)
    → g.meta < 2 ^ 32
    → q < 64
    → Fields
        (set_free (record (set_power q g) { buf = buf }))
        true
        (copied_by_reference g)
        q
        (length g)
lent-Fields q g buf h small = Fields-set_free (needs_freeing g) _ _ q _ (
    Fields-buf (needs_freeing g) _ (set_power q g) q _ buf
      (Fields-set_power (needs_freeing g) _ g _ _ q (own-Fields g h) small))

pub rebuffer-Regrown_view :
    (q : ℕ) (s : State) (p : Ptr) (b : Block)
    → Held s.self s.mem p b
    → needs_freeing s.self ≡ false
    → length s.self ≤ 2 ^ q
    → q < 64
    → 2 ^ q ≤ s.mem.largest
    → Returns (λ _ t. (bytes : List ℕ) × Regrown q s t bytes) (rebuffer q s)
unfolding set_free slice
rebuffer-Regrown_view q s p b h lent enough small fits =
    rw (rebuffer_view q s p b h lent enough fits) (
      splice (replicate (2 ^ q) s.mem.junk) 0 (slice b.bytes p.offset (length s.self)),
      record {
        fields = lent-Fields q s.self _ h.word small;
        place = refl;
        block = get_elem?-append_self s.mem.blocks _;
        size =
            length-splice (replicate (2 ^ q) s.mem.junk) 0 _ ∙ length-replicate (2 ^ q) s.mem.junk;
        kept =
            slice-splice (replicate (2 ^ q) s.mem.junk) 0 0 0 (length s.self) _ (omega arith)
              (omega (arith, length-slice b.bytes p.offset (length s.self) h.in_length))
              (omega (arith, length-replicate (2 ^ q) s.mem.junk))
            ∙ sym (contents-Held s.self s.mem p b h);
        frame = λ i below other. added_other s.mem.blocks _ i below;
        foreign = λ not_own i below. added_other s.mem.blocks _ i below;
        count = added_count s.mem.blocks _;
        limit = refl;
      },
    )

pub rebuffer-Regrown_blank :
    (q : ℕ) (s : State)
    → s.self.meta < 2 ^ 32
    → s.self.buf ≡ none
    → length s.self ≡ 0
    → q < 64
    → 2 ^ q ≤ s.mem.largest
    → Returns (λ _ t. (bytes : List ℕ) × Regrown q s t bytes) (rebuffer q s)
unfolding set_free contents slice
rebuffer-Regrown_blank q s word e len small fits = rw (rebuffer_blank q s e fits) (
  replicate (2 ^ q) s.mem.junk,
  record {
    fields = lent-Fields q s.self _ word small;
    place = refl;
    block = get_elem?-append_self s.mem.blocks _;
    size = length-replicate (2 ^ q) s.mem.junk;
    kept = rw (len, e, contents);
    frame = λ i below other. added_other s.mem.blocks _ i below;
    foreign = λ not_own i below. added_other s.mem.blocks _ i below;
    count = added_count s.mem.blocks _;
    limit = refl;
  },
)
