-- ===== src/Gstring/Append.antt =====
-- The appends put the new bytes behind the old contents.
use libglim.Base
use libglim.Base.{
  ℕ, zero, suc, ◌+◌, ◌-◌, ◌%◌, ◌^◌, ◌≤◌, ◌<◌, ◌≡◌, ◌≢◌, refl, sym, true, false, ◌||◌, ◌⊎◌, inl, inr,
  Option, Bool, none, some, List, [], ◌∷◌, ◌++◌, get_elem?, set, slice, splice, arith, ltb, leb,
  ◌==◌, if◌then◌else◌, Option-cases, length-slice, ◌∙◌, ap, get_elem?-set_self, get_elem?-set_ne,
  get_elem?-lt, length-splice, slice-splice,
}
use libglim.Memory.{Memory, Block, Ptr, is_live, read, write}
use libglim.Gstring.{Gstring, power, capacity, length, set_length}
use libglim.Gstring.Meta.{Fields-set_length, own-Fields}
use libglim.Gstring.Object.{
  State, Cmd, done, ◌>>=◌, ◌>>◌, get, put, pure, reserve, load, store, append, append_char,
}
use libglim.Gstring.Valid.{contents, Held, IsValid, holds, Returns, Returns-bind, Keeps, Within}
use libglim.Gstring.Regrown.{contents-Held}
use libglim.Gstring.Room.{Room, reserve_lem, Held-Room}

-- What the appends promise: the string is valid and holds the old bytes and the new ones.
pub record Appended (ys : List ℕ) (s t : State) : Type 0 where
  pub valid : IsValid t.self t.mem
  pub content : contents t.self t.mem ≡ contents s.self s.mem ++ ys
  pub frame : Keeps s.self s.mem t.mem
  pub elsewhere :
      (i : ℕ) → i < Base.length s.mem.blocks → ¬ Within s.self.buf i → ¬ Within t.self.buf i
  pub limit : t.mem.largest ≡ s.mem.largest

abbrev rewritten : Block → ℕ → List ℕ → Block
rewritten b o ys = record b { bytes = splice b.bytes o ys }

pub store_lem :
    (n : ℕ) (ys : List ℕ) (s : State) (p : Ptr) (b : Block)
    → s.self.buf ≡ some p
    → get_elem? s.mem.blocks p.block ≡ some b
    → is_live b ≡ true
    → p.offset + n + Base.length ys ≤ Base.length b.bytes
    → store n ys s
      ≡ done tt (record s {
        mem = record (s.mem) { blocks = set s.mem.blocks p.block (rewritten b (p.offset + n) ys) };
      })
unfolding store write
store_lem n ys s p b e at live fits = ground arith

-- `store` behind the old bytes, then the length setter.
unfoldable pub write_tail : ℕ → List ℕ → ℕ → Cmd (Unit {0})
write_tail pos ys new = do store pos ys; h ← get; put (set_length new h)

abbrev tail_state : State → Ptr → Block → List ℕ → ℕ → State
tail_state s p b ys new = record {
  self = set_length new s.self;
  mem = record (s.mem) {
    blocks = set s.mem.blocks p.block (rewritten b (p.offset + length s.self) ys);
  };
}

tail-Held :
    (s : State) (p : Ptr) (b : Block) (ys : List ℕ) (new : ℕ)
    → Held s.self s.mem p b
    → p.offset + 2 ^ power s.self ≤ Base.length b.bytes
    → new ≡ length s.self + Base.length ys
    → new ≤ 2 ^ power s.self
    → new < 2 ^ 24
    → let t = tail_state s p b ys new in
      Held t.self t.mem p (rewritten b (p.offset + length s.self) ys)
unfolding set_length
tail-Held s p b ys new h room e fits small =
    let f = Fields-set_length _ _ s.self _ _ new (own-Fields s.self h.word) in
    let size = length-splice b.bytes (p.offset + length s.self) ys in
    record {
      word = f.is_word;
      small = omega (arith, f.the_power, h.small);
      ptr = h.ptr;
      at = get_elem?-set_self s.mem.blocks p.block _ (get_elem?-lt s.mem.blocks p.block h.at);
      live = h.live;
      in_length = omega (arith, f.the_length);
      in_capacity = inr (rw (f.the_power) (omega arith));
      owner = λ own. h.owner (sym (f.freeing) ∙ own);
    }

tail_content :
    (s : State) (p : Ptr) (b : Block) (ys : List ℕ) (new : ℕ)
    → Held s.self s.mem p b
    → p.offset + 2 ^ power s.self ≤ Base.length b.bytes
    → new ≡ length s.self + Base.length ys
    → new ≤ 2 ^ power s.self
    → new < 2 ^ 24
    → let t = tail_state s p b ys new in contents t.self t.mem ≡ contents s.self s.mem ++ ys
tail_content s p b ys new h room e fits small =
    let f = Fields-set_length _ _ s.self _ _ new (own-Fields s.self h.word) in
    let len : length (set_length new s.self) ≡ new = omega (arith, f.the_length) in
    contents-Held _ _ p _ (tail-Held s p b ys new h room e fits small)
    ∙ rw (len, contents-Held s.self s.mem p b h)
        (slice-splice b.bytes p.offset (length s.self) (p.offset + length s.self) new ys refl e
          (omega arith))

Within-at : (o : Option Ptr) (p : Ptr) (i : ℕ) → o ≡ some p → Within o i → p.block ≡ i
Within-at o p i e h = rw e at h

-- After `reserve`, the new bytes go behind the old ones.
pub write_tail_lem :
    (to : ℕ) (s t : State) (p : Ptr) (b : Block) (ys : List ℕ) (new : ℕ)
    → Room to s t p b
    → new ≡ length s.self + Base.length ys
    → new ≤ to
    → new < 2 ^ 24
    → Returns (λ _ u. Appended ys s u) (write_tail (length s.self) ys new t)
unfolding write_tail set_length
write_tail_lem to s t p b ys new r e fits small =
    let h = r.held in
    let e' : new ≡ length t.self + Base.length ys = omega arith in
    let room : new ≤ 2 ^ power t.self = omega arith in
    rw (← r.same_length) (
      rw (store_lem (length t.self) ys t p b h.ptr h.at h.live (omega arith)) (record {
        valid = holds p _ (tail-Held t p b ys new h r.room e' room small);
        content =
            tail_content t p b ys new h r.room e' room small ∙ ap (λ c. c ++ ys) r.same_contents;
        frame = λ i below other.
            get_elem?-set_ne t.mem.blocks p.block i _ (r.elsewhere i below other)
            ∙ r.frame i below other;
        elsewhere = λ i below other.
            λ in_block. r.elsewhere i below other (Within-at t.self.buf p i h.ptr in_block);
        limit = r.limit;
      }))

-- `if (need > cap || cap <= 1) reserve (need)`
abbrev pub grow_for : Bool → ℕ → Cmd (Unit {0})
grow_for short need = if short then reserve need else pure tt

pub capacity_lem : (g : Gstring) → capacity g ≡ 2 ^ power g
unfolding capacity
capacity_lem g = refl

pub grow_for-Room :
    (short : Bool) (need : ℕ) (s : State)
    → (short ≡ false → (need ≤ capacity s.self) × (1 < capacity s.self))
    → IsValid s.self s.mem
    → length s.self ≤ need
    → need ≤ 2 ^ 24
    → 2 ^ 24 ≤ s.mem.largest
    → Returns (λ _ t. (p : Ptr) × (b : Block) × Room need s t p b) (grow_for short need s)
grow_for-Room true need s enough v h g fits = reserve_lem need s v h g fits
grow_for-Room false need s enough v h g fits =
    (Held-Room need s v (unfold capacity in (enough refl).0) (not_zero (enough refl).1)).0
  where
    not_zero : 1 < capacity s.self → power s.self ≢ 0
    not_zero lt e = omega (arith, capacity_lem s.self, ap (λ (k : ℕ). 2 ^ k) e)

-- append (char ch) puts `ch` behind the old bytes, if the new length fits 24 bits.
pub append_char-appends :
    (ch : ℕ) (s : State)
    → IsValid s.self s.mem
    → length s.self + 1 < 2 ^ 24
    → 2 ^ 24 ≤ s.mem.largest
    → Returns (λ _ t. Appended (ch ∷ []) s t) (append_char ch s)
unfolding append_char
append_char-appends ch s v small fits =
    let c = leb (capacity s.self) (length s.self) || leb (capacity s.self) 1 in
    Returns-bind (λ _ t. (p : Ptr) × (b : Block) × Room (length s.self + 1) s t p b)
      (λ _ t. Appended (ch ∷ []) s t) (grow_for c (length s.self + 1) s) _
      (grow_for-Room c (length s.self + 1) s (λ e. ground arith) v (omega arith) (omega arith) fits)
      (λ _ t (p, b, r).
        unfold write_tail in
        write_tail_lem (length s.self + 1) s t p b (ch ∷ []) (length s.self + 1) r (omega arith)
          (omega arith) small)

-- What a memcpy loads, from what the memory holds.
pub load-read :
    (n : ℕ) (s : State) (q : Ptr) (ys : List ℕ)
    → read s.mem q n ≡ some ys
    → load (some q) n s ≡ done ys s
unfolding load read slice
load-read zero s q ys e = ground arith
load-read (suc n) s q ys e = ground arith

pub length-read :
    (m : Memory) (q : Ptr) (n : ℕ) (ys : List ℕ) → read m q n ≡ some ys → Base.length ys ≡ n
unfolding read
length-read m q n ys e = elim (Option-cases (get_elem? m.blocks q.block)) [
  | inl missing ↦ ground arith
  | inr (b, found) ↦ ground (arith, length-slice b.bytes q.offset n)
]

-- A read sees nothing of a change in another block.
pub read-Keeps :
    (m n : Memory) (q : Ptr) (k : ℕ) (ys : List ℕ)
    → get_elem? n.blocks q.block ≡ get_elem? m.blocks q.block
    → read m q k ≡ some ys
    → read n q k ≡ some ys
unfolding read
read-Keeps m n q k ys same e = ground arith

pub read-lt :
    (m : Memory) (q : Ptr) (k : ℕ) (ys : List ℕ)
    → read m q k ≡ some ys
    → q.block < Base.length m.blocks
unfolding read
read-lt m q k ys e = elim (Option-cases (get_elem? m.blocks q.block)) [
  | inl missing ↦ ground arith
  | inr (b, found) ↦ get_elem?-lt m.blocks q.block found
]

-- append (cstr, clen) puts the `clen` bytes at `cstr` behind the old ones, if they do not lie in the
-- string's own buffer and the new length fits 24 bits.
pub append-appends :
    (q : Ptr) (n : ℕ) (ys : List ℕ) (s : State)
    → IsValid s.self s.mem
    → read s.mem q n ≡ some ys
    → ¬ Within s.self.buf q.block
    → length s.self + n < 2 ^ 24
    → 2 ^ 24 ≤ s.mem.largest
    → Returns (λ _ t. Appended ys s t) (append (some q) n s)
unfolding append
append-appends q n ys s v source apart small fits =
    let need = (length s.self + n) % 2 ^ 32 in
    let exact : need ≡ length s.self + n = omega arith in
    let c = ltb (capacity s.self) need || leb (capacity s.self) 1 in
    Returns-bind (λ _ t. (p : Ptr) × (b : Block) × Room need s t p b) (λ _ t. Appended ys s t)
      (grow_for c need s) _
      (grow_for-Room c need s (λ e. ground arith) v (omega arith) (omega arith) fits)
      (λ _ t (p, b, r).
        let same = r.frame q.block (read-lt s.mem q n ys source) apart in
        rw (load-read n t q ys (read-Keeps s.mem t.mem q n ys same source)) (
          unfold write_tail in
          write_tail_lem need s t p b ys need r (omega (arith, length-read s.mem q n ys source))
            (omega arith) (omega arith)))
