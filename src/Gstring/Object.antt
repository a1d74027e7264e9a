-- ===== src/Gstring/Object.antt =====
-- gstring.hpp: the constructors, assignments, `reserve`, the appends, `erase`, `c_str` and the destructor,
-- on one object and the memory. A method is a command on the state; `fault` is undefined behaviour.
use libglim.Base.{
  ℕ, zero, suc, ◌+◌, ◌-◌, ◌%◌, ◌^◌, Bool, true, false, not, ◌&&◌, ◌||◌, Option, none, some, List,
  [], ◌∷◌, ltb, leb, ◌==◌, if◌then◌else◌, is_some,
}
use libglim.Memory.{Memory, Ptr, malloc, free, realloc, read, write}
use libglim.Gstring.{
  Gstring, pack, needs_freeing, copied_by_reference, power, capacity, length, set_length, set_power,
  set_free, length_mask,
}

pub data Error : Type 0 where
  too_large no_memory : Error

pub record State : Type 0 where
  pub self : Gstring
  pub mem : Memory

-- `throws` keeps the state, since an exception leaves the object as it is at that point.
pub data Run (A : Type 0) : Type 0 where
  done : A → State → Run A
  throws : Error → State → Run A
  fault : Run A

abbrev pub Cmd : Type 0 → Type 0
Cmd A = State → Run A

module _ {A B : Type 0} where
  abbrev pub and_then : Run A → (A → Cmd B) → Run B
  and_then (done a s) k = k a s
  and_then (throws e s) k = throws e s
  and_then fault k = fault

  infixl 5 ◌>>=◌ ◌>>◌
  abbrev pub ◌>>=◌ : Cmd A → (A → Cmd B) → Cmd B
  m >>= k = λ s. and_then (m s) k

  abbrev pub ◌>>◌ : Cmd A → Cmd B → Cmd B
  m >> n = m >>= λ _. n

abbrev pub pure : {A : Type 0} → A → Cmd A
pure a s = done a s

abbrev pub throw : {A : Type 0} → Error → Cmd A
throw e s = throws e s

abbrev pub crash : {A : Type 0} → Cmd A
crash s = fault

abbrev pub get : Cmd Gstring
get s = done s.self s

abbrev pub put : Gstring → Cmd (Unit {0})
put g s = done tt (record s { self = g })

abbrev pub empty : Gstring
empty = record { meta = 0; buf = none }

abbrev pub shift : Ptr → ℕ → Ptr
shift p n = record p { offset = p.offset + n }

-- `buf + n`
abbrev pub offset_by : Option Ptr → ℕ → Option Ptr
offset_by none n = none
offset_by (some p) n = some (shift p n)

-- The source of a memcpy. A copy of no bytes touches no memory.
unfoldable pub load : Option Ptr → ℕ → Cmd (List ℕ)
load none n s = if n == 0 then done [] s else fault
load (some p) n s =
    if n == 0 then done [] s else elim (read s.mem p n) [ none ↦ fault | some ys ↦ done ys s ]

-- The bytes written at `_buf + pos`.
unfoldable pub store : ℕ → List ℕ → Cmd (Unit {0})
store pos ys s = elim s.self.buf [
  | none ↦ fault
  | some p ↦ elim (write (shift p pos) ys s.mem) [
    | none ↦ fault
    | some m ↦ done tt (record s { mem = m })
  ]
]

-- `_buf = ::malloc (n)`; the result says whether it is not null.
unfoldable pub allocate : ℕ → Cmd Bool
allocate n s =
    let (p, m) = malloc n s.mem in
    done (is_some p) (record { self = record s.self { buf = p }; mem = m })

-- `_buf = ::realloc (_buf, n)`
unfoldable pub reallocate : ℕ → Cmd Bool
reallocate n s = elim s.self.buf [
  | none ↦ allocate n s
  | some p ↦ elim (realloc p n s.mem) [
    | none ↦ fault
    | some (q, m) ↦ done (is_some q) (record { self = record s.self { buf = q }; mem = m })
  ]
]

-- `if (_buf != nullptr && needsFreeing()) ::free (_buf)`
unfoldable pub release : Cmd (Unit {0})
release s = elim s.self.buf [
  | none ↦ done tt s
  | some p ↦
      if needs_freeing s.self
      then elim (free p s.mem) [ none ↦ fault | some m ↦ done tt (record s { mem = m }) ]
      else done tt s
]

-- `while (((uint32_t) 1 << power) < to) ++power`; a shift by 32 is undefined. `rounds` is 32 - power.
unfoldable pub grow : ℕ → ℕ → ℕ → Option ℕ
grow zero p to = none
grow (suc rounds) p to =
    let rest = grow rounds (p + 1) to in if ltb (2 ^ p) to then rest else some p

-- `::memcpy (_buf, oldBuf, length())`
unfoldable pub copy_old : Gstring → Cmd (Unit {0})
copy_old g = do old ← load g.buf (length g); store 0 old

-- The second half of `reserve`: a buffer of 2 ^ p bytes with the old contents.
unfoldable pub rebuffer : ℕ → Cmd (Unit {0})
rebuffer p = do
  g ← get
  put (set_power p g)
  if needs_freeing g && is_some g.buf
      then (do granted ← reallocate (2 ^ p); if granted then pure tt else throw no_memory)
      else (do
        granted ← allocate (2 ^ p)
        if granted then pure tt else throw no_memory
        if is_some g.buf then copy_old g else pure tt
        h ← get
        put (set_free h))

unfoldable pub reserve : ℕ → Cmd (Unit {0})
reserve to s =
    let p = power s.self in
    if leb 32 p
    then fault
    else if ltb (2 ^ p) to
    then elim (grow (31 - p) (p + 1) to) [
      | none ↦ fault
      | some q ↦ if ltb 24 q then throws too_large s else rebuffer q s
    ]
    else if not (p == 0)
    then done tt s
    else rebuffer p s

-- append (char ch)
unfoldable pub append_char : ℕ → Cmd (Unit {0})
append_char ch = do
  g ← get
  if leb (capacity g) (length g) || leb (capacity g) 1 then reserve (length g + 1) else pure tt
  store (length g) (ch ∷ [])
  h ← get
  put (set_length (length g + 1) h)

-- append (const char* cstr, uint32_t clen): `cstr` is read after the buffer has grown.
unfoldable pub append : Option Ptr → ℕ → Cmd (Unit {0})
append cstr clen = do
  g ← get
  let need = (length g + clen) % 2 ^ 32
  if ltb (capacity g) need || leb (capacity g) 1 then reserve need else pure tt
  ys ← load cstr clen
  store (length g) ys
  h ← get
  put (set_length need h)

-- gstring& operator << (const gstring& gs)
unfoldable pub append_gstring : Gstring → Cmd (Unit {0})
append_gstring gs = append gs.buf (length gs)

unfoldable pub clear : Cmd (Unit {0})
clear s = done tt (record s { self = set_length 0 s.self })

-- ParseFrom (const char* cstr, int clen), for a `clen` that is not negative.
unfoldable pub parse_from : Option Ptr → ℕ → Cmd Bool
parse_from cstr clen =
    if ltb length_mask clen then pure false else (do clear; append cstr clen; pure true)

-- erase (uint32_t pos, uint32_t count); nothing happens if the range leaves the string.
unfoldable pub erase : ℕ → ℕ → Cmd (Unit {0})
erase pos count = do
  g ← get
  if leb (pos + count) (length g)
      then (do
        put (set_length (length g - count) g)
        tail ← load (offset_by g.buf (pos + count)) (length g - (pos + count))
        if is_some g.buf then store pos tail else pure tt)
      else pure tt

-- c_str(): `none` is the static empty string. The terminator is written behind the string.
unfoldable pub c_str : Cmd (Option Ptr)
c_str = do
  g ← get
  if length g == 0 then pure none else (do
    if ltb (capacity g) (length g + 1) then reserve (length g + 1) else pure tt
    store (length g) (0 ∷ [])
    h ← get
    pure h.buf)

-- ~gstring()
unfoldable pub destroy : Cmd (Unit {0})
destroy s = elim s.self.buf [
  | none ↦ done tt s
  | some p ↦
      if needs_freeing s.self
      then (do release; g ← get; put (record g { buf = none })) s
      else done tt s
]

-- The loop of the buffer-reusing constructor: the largest power of two within `size`.
unfoldable pub size_power : ℕ → ℕ → ℕ → Option ℕ
size_power zero p size = none
size_power (suc rounds) p size =
    let rest = size_power rounds (p + 1) size in if leb (2 ^ (p + 1)) size then rest else some p

-- gstring (uint32_t bufSize, void* buf, bool free, uint32_t length, bool ref)
unfoldable pub wrap : ℕ → Option Ptr → Bool → ℕ → Bool → Cmd (Unit {0})
wrap size buf free len ref s = elim (size_power 31 0 size) [
  | none ↦ fault
  | some p ↦ put (record { meta = pack free ref p len; buf = buf }) s
]

-- gstring (ReferenceConstructor, const char* buf, uint32_t length, bool ref)
unfoldable pub reference : Option Ptr → ℕ → Bool → Cmd (Unit {0})
reference buf len ref = put (record { meta = pack false ref 0 len; buf = buf })

-- gstring (const char* chars, size_t length): FREE_FLAG, and no capacity.
unfoldable pub copy_chars : Option Ptr → ℕ → Cmd (Unit {0})
copy_chars chars len = do
  put empty
  if len == 0 then pure tt else (do granted ← allocate len; ys ← load chars len; store 0 ys)
  g ← get
  put (record g { meta = pack true false 0 len })

-- gstring (const gstring& gstr)
unfoldable pub copy_construct : Gstring → Cmd (Unit {0})
copy_construct gstr =
    if length gstr == 0 then put empty else if copied_by_reference gstr then put gstr else (do
      granted ← allocate (length gstr)
      if granted then pure tt else throw no_memory
      ys ← load gstr.buf (length gstr)
      store 0 ys
      g ← get
      put (record g { meta = pack true false 0 (length gstr) }))

-- gstring (gstring&& gstr): the result is what is left of `gstr`.
unfoldable pub move_construct : Gstring → Cmd Gstring
move_construct gstr = do put gstr; pure empty

-- operator = (gstring&& gstr)
unfoldable pub move_assign : Gstring → Cmd Gstring
move_assign gstr = do release; put gstr; pure empty

-- `_meta = FREE_FLAG | (power << CAPACITY_OFFSET) | (glen & LENGTH_MASK)`
unfoldable pub finish : ℕ → ℕ → Cmd (Unit {0})
finish p glen = do g ← get; put (record g { meta = pack true false p glen })

-- operator = (const gstring& gstr), for another object. The word gets FREE_FLAG on the way that
-- reuses the buffer, too.
unfoldable pub copy_assign : Gstring → Cmd (Unit {0})
copy_assign gstr = do
  g ← get
  let glen = length gstr
  if leb glen (capacity g) && ltb 1 (capacity g)
      then (do ys ← load gstr.buf glen; store 0 ys; finish (power g) glen)
      else (do
        release
        if copied_by_reference gstr then put gstr else (do
          granted ← allocate glen
          if granted then pure tt else throw no_memory
          ys ← load gstr.buf glen
          store 0 ys
          finish 0 glen))

-- ref(), and view (pos, count) for a count that is not negative.
unfoldable pub ref : Gstring → Gstring
ref g = record { meta = pack false true 0 (length g); buf = g.buf }

unfoldable pub view : Gstring → ℕ → ℕ → Gstring
view g pos count = record {
  meta = pack false (copied_by_reference g) 0 count;
  buf = offset_by g.buf pos;
}

-- owned()
unfoldable pub owned : Cmd (Unit {0})
owned = do
  g ← get
  if needs_freeing g then pure tt else (λ s. elim (copy_chars g.buf (length g) s) [
    | done _ t ↦ (do rest ← move_assign t.self; pure tt) (record t { self = g })
    | throws e t ↦ throws e t
    | fault ↦ fault
  ])
