-- ===== src/Compare.antt =====
-- gstring.hpp: equals, operator <, indexOf, find and the hash, on the bytes of the strings.
pub mod Order
pub mod Search
pub mod Tests
use libglim.Base.{
  ℕ, zero, suc, ◌+◌, ◌-◌, ◌*◌, ◌%◌, ◌^◌, ◌≤◌, ◌<◌, ◌≡◌, refl, Bool, true, false, not, ◌&&◌, ◌||◌,
  Option, none, some, List, [], ◌∷◌, ◌++◌, ltb, leb, ◌==◌, if◌then◌else◌, length, min, take, drop,
}

pub data Sign : Type 0 where
  less same greater : Sign

-- memcmp (xs, ys, n) == 0
unfoldable pub memcmp_same : ℕ → List ℕ → List ℕ → Bool
memcmp_same zero xs ys = true
memcmp_same (suc n) [] ys = true
memcmp_same (suc n) (x ∷ xs) [] = true
memcmp_same (suc n) (x ∷ xs) (y ∷ ys) = let rest = memcmp_same n xs ys in x == y && rest

-- equals (const gstring& gs)
unfoldable pub equals : List ℕ → List ℕ → Bool
equals xs ys = if not (length xs == length ys) then false else memcmp_same (length xs) xs ys

-- The sign of strncmp (xs, ys, n), which ends at a zero byte. It is called with no more bytes than there are.
unfoldable pub strncmp : ℕ → List ℕ → List ℕ → Sign
strncmp zero xs ys = same
strncmp (suc n) [] ys = same
strncmp (suc n) (x ∷ xs) [] = same
strncmp (suc n) (x ∷ xs) (y ∷ ys) =
    let rest = strncmp n xs ys in
    if ltb x y then less else if ltb y x then greater else if x == 0 then same else rest

abbrev is_less : Sign → Bool
is_less less = true
is_less same = false
is_less greater = false

abbrev or_shorter : Sign → Bool → Bool
or_shorter less shorter = true
or_shorter same shorter = shorter
or_shorter greater shorter = false

-- operator < (const gstring &gs)
unfoldable pub less_than : List ℕ → List ℕ → Bool
less_than xs ys =
    if length xs == length ys
    then is_less (strncmp (length xs) xs ys)
    else or_shorter (strncmp (min (length xs) (length ys)) xs ys) (ltb (length xs) (length ys))

-- A result of an offset, which starts one later.
abbrev pub later : Option ℕ → Option ℕ
later none = none
later (some i) = some (suc i)

-- indexOf (char ch): none is -1.
unfoldable pub index_of : ℕ → List ℕ → Option ℕ
index_of ch [] = none
index_of ch (x ∷ xs) = let rest = index_of ch xs in if x == ch then some 0 else later rest

unfoldable pub begins : List ℕ → List ℕ → Bool
begins xs [] = true
begins [] (y ∷ ys) = false
begins (x ∷ xs) (y ∷ ys) = let rest = begins xs ys in x == y && rest

-- memmem: the offset of the first place where `str` lies.
unfoldable pub memmem : List ℕ → List ℕ → Option ℕ
memmem [] str = if length str == 0 then some 0 else none
memmem (x ∷ xs) str = let rest = memmem xs str in if begins (x ∷ xs) str then some 0 else later rest

abbrev shifted : ℕ → Option ℕ → Option ℕ
shifted start none = none
shifted start (some i) = some (start + i)

-- find (const char* str, int32_t pos, int32_t count), for a `pos` that is not negative: none is -1.
unfoldable pub find : List ℕ → List ℕ → ℕ → Option ℕ
find xs str start =
    if leb (length xs) start then none else shifted start (memmem (drop start xs) str)

-- A char, which is signed, as a uint32_t.
abbrev pub as_uint32 : ℕ → ℕ
as_uint32 c = if ltb c 128 then c else 2 ^ 32 - 256 + c

-- The loop of std::hash<glim::gstring>.
unfoldable pub hash_from : ℕ → List ℕ → ℕ
hash_from hash [] = hash
hash_from hash (c ∷ cs) = hash_from ((hash * 33 + as_uint32 c) % 2 ^ 32) cs

unfoldable pub hash : List ℕ → ℕ
unfolding hash_from
hash xs = hash_from 5381 xs
