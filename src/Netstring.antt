-- ===== src/Netstring.antt =====
-- gstring.hpp: netstrings in a gstring and in a std::string, and the wrappers around strtol. A string is
-- the list of its bytes; positions and lengths are uint32_t and wrap around.
pub mod Digits
pub mod Roundtrip
pub mod Stream
pub mod Tests
use libglim.Base.{
  ℕ, zero, suc, ◌+◌, ◌-◌, ◌*◌, ◌%◌, ◌^◌, ◌≡◌, refl, Bool, true, false, not, ◌&&◌, ◌||◌, Option,
  none, some, List, [], ◌∷◌, ◌++◌, ltb, leb, ◌==◌, if◌then◌else◌, get_or, take, drop, length, min,
}
use libglim.Base.Int.{ℤ, pos, negsuc}
use libglim.Itoa.{itoa, opposite, codes}

pub data Error : Type 0 where
  null_buffer no_header header_end no_body out_of_range not_netstring too_large : Error

pub data Result (A : Type 0) : Type 0 where
  ok : A → Result A
  error : Error → Result A

-- '0' <= c && c <= '9'
abbrev pub is_digit : ℕ → Bool
is_digit c = leb 48 c && leb c 57

abbrev pub is_space : ℕ → Bool
is_space c = c == 32 || leb 9 c && leb c 13

-- The leading run of digits.
unfoldable pub digits : List ℕ → List ℕ
digits [] = []
digits (c ∷ cs) = let rest = digits cs in if is_digit c then c ∷ rest else []

unfoldable pub value : ℕ → List ℕ → ℕ
value acc [] = acc
value acc (c ∷ cs) = value (acc * 10 + (c - 48)) cs

unfoldable pub spaces : List ℕ → ℕ
spaces [] = 0
spaces (c ∷ cs) = let rest = spaces cs in if is_space c then suc rest else 0

-- A long is kept within its range.
abbrev clamp : Bool → ℕ → ℤ
clamp true n = opposite (min n (2 ^ 63))
clamp false n = pos (min n (2 ^ 63 - 1))

-- The sign at the front: its length and whether it is a minus.
unfoldable pub sign : List ℕ → ℕ × Bool
sign [] = (0, false)
sign (c ∷ cs) = if c == 45 then (1, true) else if c == 43 then (1, false) else (0, false)

-- strtol in base 10, with the number of bytes before `endptr` (none if there are no digits).
unfoldable pub strtol : List ℕ → ℤ × ℕ
strtol xs =
    let blank = spaces xs in
    let (width, minus) = sign (drop blank xs) in
    let ds = digits (drop (blank + width) xs) in
    if length ds == 0 then (pos 0, 0) else (clamp minus (value 0 ds), blank + width + length ds)

-- The loop that moves a position over digits below `len`; the list is what lies there.
unfoldable pub skip : List ℕ → ℕ → ℕ → ℕ
skip [] next len = next
skip (c ∷ cs) next len =
    let rest = skip cs (next + 1) len in if ltb next len && is_digit c then rest else next

-- Where a parsed netstring's payload lies, and `after`.
pub record Span : Type 0 where
  pub start : ℕ
  pub size : ℕ
  pub after : ℕ

-- A long as a uint32_t.
abbrev pub to_uint32 : ℤ → ℕ
to_uint32 (pos n) = n % 2 ^ 32
to_uint32 (negsuc n) = 2 ^ 32 - 1 - n % 2 ^ 32

-- `next = pos + nlen`, the check of the comma, and the result.
unfoldable pub body : List ℕ → ℕ → ℤ → Result Span
body source start nlen =
    let next = (start + to_uint32 nlen) % 2 ^ 32 in
    if leb (length source % 2 ^ 32) next || not (get_or source next 0 == b',')
    then error no_body
    else ok (record {
      start = start;
      size = (next + 2 ^ 32 - start) % 2 ^ 32;
      after = (next + 1) % 2 ^ 32;
    })

-- netstringAt; `next - pos` cannot wrap around, since `next` starts at `pos`.
unfoldable pub netstring_at : List ℕ → ℕ → Result Span
netstring_at source at =
    let len = length source % 2 ^ 32 in
    let next = skip (drop at source) at len in
    if leb len next || not (get_or source next 0 == b':') || ltb 10 (next - at)
    then error no_header
    else let (nlen, used) = strtol (drop at source) in
      if not (at + used == next) then error header_end else body source ((next + 1) % 2 ^ 32) nlen

-- appendNetstring and writeNetstring, as the bytes they add: `(int) clen`, ':', the bytes, ','.
unfoldable pub encode : List ℕ → List ℕ
encode xs = itoa (pos (length xs)) 10 ++ b':' ∷ [] ++ xs ++ b',' ∷ []

-- intAt in base 10. The bytes behind the string, which strtol may read, are `behind`.
unfoldable pub int_at : List ℕ → List ℕ → ℕ → Result (ℤ × ℕ)
int_at source behind at =
    let len = length source % 2 ^ 32 in
    if leb len at
    then error out_of_range
    else let (lv, used) = strtol (drop at (source ++ behind)) in
      let next = (at + used) % 2 ^ 32 in if ltb len next then error out_of_range else ok (lv, next)

-- toInt in base 10, on the copy with a terminator.
unfoldable pub to_int : List ℕ → ℤ
to_int source = if length source == 0 then pos 0 else (strtol (source ++ 0 ∷ [])).0

abbrev masked : Result Span → Result Span
masked (error e) = error e
masked (ok sp) = ok (record sp { size = sp.size % 2 ^ 24 })

-- gstring::netstringAt: none is a null buffer, and the length of the view is masked.
unfoldable pub view_netstring_at : Option (List ℕ) → ℕ → Result Span
view_netstring_at none at = error null_buffer
view_netstring_at (some source) at = masked (netstring_at source at)

abbrev int32_limit : Bool → ℕ
int32_limit true = 1
int32_limit false = 2 ^ 31

-- `stream >> nlen` and the check after it: none if there is no number, the stream ends behind it, it is
-- no int32_t or it is negative.
unfoldable pub read_length : List ℕ → Option (ℕ × List ℕ)
read_length stream =
    let blank = spaces stream in
    let (width, minus) = sign (drop blank stream) in
    let ds = digits (drop (blank + width) stream) in
    let rest = drop (blank + width + length ds) stream in
    if length ds == 0 || length rest == 0 || leb (int32_limit minus) (value 0 ds)
    then none
    else some (value 0 ds, rest)

-- A gstring with `bytes` behind it: the length is kept in 24 bits.
abbrev extended : List ℕ → List ℕ → List ℕ
extended own bytes = if length own + length bytes == 2 ^ 24 then [] else own ++ bytes

-- readNetstring: the string and the rest of the stream after it.
unfoldable pub read_netstring : List ℕ → List ℕ → Result (List ℕ × List ℕ)
read_netstring own stream = elim (read_length stream) [
  | none ↦ error not_netstring
  | some (n, rest) ↦ elim rest [
    | [] ↦ error not_netstring
    | colon ∷ body ↦
        if not (colon == b':')
        then error not_netstring
        else if ltb (2 ^ 24) (length own + n)
        then error too_large
        else if ltb (length body) n
        then error not_netstring
        else elim (drop n body) [
          | [] ↦ error not_netstring
          | comma ∷ after ↦
              if comma == b',' then ok (extended own (take n body), after) else error not_netstring
        ]
  ]
]

netstring_read :
    netstring_at (codes "x5:hello,y") 1 ≡ ok (record { start = 3; size = 5; after = 9 })
unfolding netstring_at body strtol skip digits value spaces sign
netstring_read = refl

-- The length wraps the position around, to a comma in front of the header.
netstring_wrapped :
    netstring_at (codes ",,,4294967284:") 3
    ≡ ok (record { start = 14; size = 4294967284; after = 3 })
unfolding netstring_at body strtol skip digits value spaces sign
netstring_wrapped = refl

to_int_negative : to_int (codes " -42") ≡ negsuc 41
unfolding to_int strtol digits value spaces sign
to_int_negative = refl
