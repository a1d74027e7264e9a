-- ===== src/Gstring/Numbers.antt =====
-- gstring.hpp: `append64`, the operators that append numbers, and `appendNetstring`.
use libglim.Base
use libglim.Base.{
  ℕ, zero, suc, ◌+◌, ◌-◌, ◌*◌, ◌%◌, ◌^◌, ◌≤◌, ◌<◌, ◌≡◌, refl, sym, true, false, ◌||◌, inl, inr,
  Bool, Option, none, some, List, [], ◌∷◌, ◌++◌, append_assoc, get_elem?, set, splice, arith, ltb,
  if◌then◌else◌, ◌∙◌, ap, get_elem?-set_self, get_elem?-set_ne, get_elem?-lt, length-splice,
  length-slice, length-append, slice-splice_before, ltb→lt,
}
use libglim.Base.Int.{ℤ, pos}
use libglim.Memory.{Memory, Block, Ptr, read}
use libglim.Itoa.{itoa}
use libglim.Itoa.Length.{length-itoa}
use libglim.Netstring.{encode}
use libglim.Gstring.{Gstring, capacity, length, set_length}
use libglim.Gstring.Object.{
  State, Run, Cmd, ◌>>=◌, ◌>>◌, get, put, pure, reserve, store, append, append_char,
}
use libglim.Gstring.Valid.{
  contents, Held, IsValid, blank, holds, Returns, Returns-mono, Returns-bind, Within,
}
use libglim.Gstring.Regrown.{contents-Held}
use libglim.Gstring.Room.{Room}
use libglim.Gstring.Append.{
  Appended, store_lem, write_tail, write_tail_lem, grow_for, grow_for-Room, append_char-appends,
  append-appends, read-Keeps, read-lt, length-read,
}

-- append64 (int64_t iv, int base, uint_fast8_t bytes): `itoa` writes the text and a terminator.
unfoldable pub append64 : ℤ → ℕ → ℕ → Cmd (Unit {0})
append64 iv base bytes = do
  g ← get
  let at = length g
  let text = itoa iv base
  if ltb (capacity g) (at + bytes) then reserve (at + bytes) else pure tt
  store (at + Base.length text) (0 ∷ [])
  store at text
  h ← get
  put (set_length (at + Base.length text) h)

-- operator << (int iv), which reserves sizeof (int) * 3 bytes.
unfoldable pub append_int : ℤ → Cmd (Unit {0})
append_int iv = append64 iv 10 12

-- operator << (long iv) and (long long iv)
unfoldable pub append_long : ℤ → Cmd (Unit {0})
append_long iv = append64 iv 10 24

-- appendNetstring (const char* cstr, uint32_t clen); a clen below 2 ^ 31 stays as it is as an int.
unfoldable pub append_netstring : Option Ptr → ℕ → Cmd (Unit {0})
append_netstring cstr clen = do
  append_int (pos clen)
  append_char b':'
  append cstr clen
  append_char b','

abbrev stored : State → Ptr → Block → ℕ → ℕ → State
stored t p b o c = record t {
  mem = record (t.mem) {
    blocks = set t.mem.blocks p.block (record b { bytes = splice b.bytes (p.offset + o) (c ∷ []) });
  };
}

-- A byte written behind the string changes nothing of it.
Room-store :
    (to o c : ℕ) (s t : State) (p : Ptr) (b : Block)
    → Room to s t p b
    → length s.self ≤ o
    → Room to s (stored t p b o c) p (record b { bytes = splice b.bytes (p.offset + o) (c ∷ []) })
Room-store to o c s t p b r behind =
    let h = r.held in
    let size = length-splice b.bytes (p.offset + o) (c ∷ []) in
    let held : Held t.self (stored t p b o c).mem p
        (record b { bytes = splice b.bytes (p.offset + o) (c ∷ []) }) =
      record {
        word = h.word;
        small = h.small;
        ptr = h.ptr;
        at = get_elem?-set_self t.mem.blocks p.block _ (get_elem?-lt t.mem.blocks p.block h.at);
        live = h.live;
        in_length = omega (arith, h.in_length);
        in_capacity = rw size (h.in_capacity);
        owner = h.owner;
      } in
    record {
      held = held;
      room = omega (arith, r.room);
      enough = r.enough;
      same_length = r.same_length;
      same_contents =
          contents-Held t.self (stored t p b o c).mem p _ held
          ∙ slice-splice_before b.bytes p.offset (length t.self) (p.offset + o) (c ∷ [])
              (omega (arith, r.same_length))
          ∙ sym (contents-Held t.self t.mem p b h)
          ∙ r.same_contents;
      frame = λ i below other.
          get_elem?-set_ne t.mem.blocks p.block i _ (r.elsewhere i below other)
          ∙ r.frame i below other;
      elsewhere = r.elsewhere;
      limit = r.limit;
    }

write_number :
    (to : ℕ) (s t : State) (p : Ptr) (b : Block) (text : List ℕ)
    → Room to s t p b
    → length s.self + Base.length text < to
    → to ≤ 2 ^ 24
    → Returns
        (λ _ u. Appended text s u)
        ((store (length s.self + Base.length text) (0 ∷ []) >>= λ _.
            write_tail (length s.self) text (length s.self + Base.length text))
          t)
write_number to s t p b text r fits small =
    let h = r.held in
    let o = length s.self + Base.length text in
    rw (store_lem o (0 ∷ []) t p b h.ptr h.at h.live (omega (arith, r.room, r.enough))) (
      write_tail_lem to s (stored t p b o 0) p _ text o (Room-store to o 0 s t p b r (omega arith))
        refl (omega arith) (omega arith))

-- append64 puts the numeral behind the old bytes, if it and its terminator fit the `bytes` reserved.
pub append64-appends :
    (iv : ℤ) (base bytes : ℕ) (s : State)
    → IsValid s.self s.mem
    → Base.length (itoa iv base) < bytes
    → 2 ≤ bytes
    → length s.self + bytes ≤ 2 ^ 24
    → 2 ^ 24 ≤ s.mem.largest
    → Returns (λ _ t. Appended (itoa iv base) s t) (append64 iv base bytes s)
unfolding append64
append64-appends iv base bytes s v text two small fits =
    let need = length s.self + bytes in
    let c = ltb (capacity s.self) need in
    Returns-bind (λ _ t. (p : Ptr) × (b : Block) × Room need s t p b)
      (λ _ t. Appended (itoa iv base) s t) (grow_for c need s) _
      (grow_for-Room c need s (λ e. ground arith) v (omega arith) small fits)
      (λ _ t (p, b, r).
        unfold write_tail in write_number need s t p b (itoa iv base) r (omega arith) small)

contents_blank :
    (o : Option Ptr) (w : ℕ) (m : Memory)
    → o ≡ none
    → contents (record { meta = w; buf = o }) m ≡ []
unfolding contents
contents_blank o w m e = rw e refl

length-contents : (g : Gstring) (m : Memory) → IsValid g m → Base.length (contents g m) ≡ length g
length-contents g m (blank w none_buf c l) =
    ap Base.length (contents_blank g.buf g.meta m none_buf) ∙ sym l
length-contents g m (holds p b h) =
    rw (contents-Held g m p b h)
      (length-slice b.bytes p.offset (length g) (omega (arith, h.in_length)))

get_elem?-inside :
    {A : Type 0} (xs : List A) (i : ℕ) → i < Base.length xs → (v : A) × (get_elem? xs i ≡ some v)
get_elem?-inside [] i h = elim h [ ]
get_elem?-inside (x ∷ xs) zero h = (x, refl)
get_elem?-inside (x ∷ xs) (suc i) h = get_elem?-inside xs i (omega arith)

-- One append after another.
Appended-then :
    (ys zs : List ℕ) (s t u : State) → Appended ys s t → Appended zs t u → Appended (ys ++ zs) s u
Appended-then ys zs s t u a b = record {
  valid = b.valid;
  content = b.content ∙ ap (λ c. c ++ zs) a.content ∙ append_assoc (contents s.self s.mem) ys zs;
  frame = λ i below other.
      let kept = a.frame i below other in
      let (x, e) = get_elem?-inside s.mem.blocks i below in
      b.frame i (get_elem?-lt t.mem.blocks i (kept ∙ e)) (a.elsewhere i below other) ∙ kept;
  elsewhere = λ i below other.
      let kept = a.frame i below other in
      let (x, e) = get_elem?-inside s.mem.blocks i below in
      b.elsewhere i (get_elem?-lt t.mem.blocks i (kept ∙ e)) (a.elsewhere i below other);
  limit = b.limit ∙ a.limit;
}

grown :
    (ys : List ℕ) (s t : State)
    → IsValid s.self s.mem
    → Appended ys s t
    → length t.self ≡ length s.self + Base.length ys
grown ys s t v a =
    sym (length-contents t.self t.mem a.valid)
    ∙ ap Base.length a.content
    ∙ length-append (contents s.self s.mem) ys
    ∙ ap (λ k. k + Base.length ys) (length-contents s.self s.mem v)

-- One more append in a chain.
Appended-more :
    (ys zs : List ℕ) (s t : State) (r : Run (Unit {0}))
    → Appended ys s t
    → Returns (λ _ u. Appended zs t u) r
    → Returns (λ _ u. Appended (ys ++ zs) s u) r
Appended-more ys zs s t r a h =
    Returns-mono (λ _ u. Appended zs t u) _ r (λ _ u b. Appended-then ys zs s t u a b) h

-- appendNetstring puts the netstring of the `n` bytes at `cstr` behind the old bytes, if they do not
-- lie in the string's own buffer and there is room below 2 ^ 24.
pub append_netstring-appends :
    (q : Ptr) (n : ℕ) (xs : List ℕ) (s : State)
    → IsValid s.self s.mem
    → read s.mem q n ≡ some xs
    → ¬ Within s.self.buf q.block
    → length s.self + n + 13 < 2 ^ 24
    → 2 ^ 24 ≤ s.mem.largest
    → Returns (λ _ t. Appended (encode xs) s t) (append_netstring (some q) n s)
unfolding append_netstring append_int encode
append_netstring-appends q n xs s v source apart small fits =
    let size = length-read s.mem q n xs source in
    let text = itoa (pos n) 10 in
    let short : Base.length text ≤ 11 = length-itoa (pos n) 9 (omega arith) (omega arith) in
    let inside = read-lt s.mem q n xs source in
    let after_text =
      append64-appends (pos n) 10 12 s v (omega arith) (omega arith) (omega arith) fits in
    rw size (
      Returns-bind (λ _ t. Appended text s t) _ (append64 (pos n) 10 12 s) _ after_text
        (λ _ t a.
          Returns-bind (λ _ u. Appended (text ++ b':' ∷ []) s u) _ (append_char b':' t) _
            (Appended-more _ _ s t _ a (
              append_char-appends b':' t a.valid (omega (arith, grown text s t v a))
                (rw (a.limit) fits)))
            (λ _ u b.
              let len = length-append text (b':' ∷ []) in
              Returns-bind (λ _ w. Appended (text ++ b':' ∷ [] ++ xs) s w) _ (append (some q) n u) _
                (Appended-more _ _ s u _ b (
                  append-appends q n xs u b.valid
                    (read-Keeps s.mem u.mem q n xs (b.frame q.block inside apart) source)
                    (b.elsewhere q.block inside apart) (omega (arith, grown _ s u v b))
                    (rw (b.limit) fits)))
                (λ _ w c. Appended-more _ _ s w _ c (
                  append_char-appends b',' w c.valid
                    (omega (arith, grown _ s w v c, length-append (text ++ b':' ∷ []) xs))
                    (rw (c.limit) fits))))))
