-- ===== src/Pool.antt =====
-- SerializablePool.hpp: fields in one string of bytes behind a table of offsets, and the changes kept
-- beside it. A gstring is the list of its bytes; `none` is an exception, a failed assertion or an access
-- outside the string.
pub mod Bytes
pub mod Written
pub mod Roundtrip
pub mod Changes
pub mod Tests
use libglim.Base.{
  ℕ, zero, suc, ◌+◌, ◌-◌, ◌*◌, ◌/◌, ◌%◌, ◌^◌, ◌≡◌, refl, Bool, true, false, not, ◌&&◌, ◌||◌, Option,
  none, some, List, [], ◌∷◌, ◌++◌, ltb, leb, ◌==◌, if◌then◌else◌, get_or, drop, length, max, slice,
  splice, set, replicate,
}

infixl 5 ◌>>=◌
abbrev pub ◌>>=◌ : {A B : Type 0} → Option A → (A → Option B) → Option B
none >>= k = none
some a >>= k = k a

-- The four bytes of htonl (n), in the order of memory.
abbrev pub network_order : ℕ → List ℕ
network_order n = n / 2 ^ 24 % 256 ∷ n / 2 ^ 16 % 256 ∷ n / 2 ^ 8 % 256 ∷ n % 256 ∷ []

abbrev pub from_network : List ℕ → ℕ
from_network xs =
    get_or xs 0 0 * 2 ^ 24 + get_or xs 1 0 * 2 ^ 16 + get_or xs 2 0 * 2 ^ 8 + get_or xs 3 0

-- The bytes [at, at + n) of the string.
unfoldable pub bytes_from : List ℕ → ℕ → ℕ → Option (List ℕ)
bytes_from pool at n = if leb (at + n) (length pool) then some (slice pool at n) else none

-- ntohl (*(uint32_t*) (pool.data() + at))
unfoldable pub uint32_at : List ℕ → ℕ → Option ℕ
uint32_at pool at = do xs ← bytes_from pool at 4; some (from_network xs)

-- (int) a - (int) b < 4
unfoldable pub nearly_reached : ℕ → ℕ → Bool
nearly_reached a b = ltb ((a + 2 ^ 31) % 2 ^ 32) ((b + 2 ^ 31) % 2 ^ 32 + 4)

-- nextValueOffset, read behind the offset of the field unless that is the last.
unfoldable pub next_offset : List ℕ → ℕ → ℕ → Option ℕ
next_offset pool values_start at =
    if nearly_reached values_start at then some (length pool) else uint32_at pool at

-- original (const gstring& pool, uint32_t num, bool ref): the bytes of the field.
unfoldable pub original : List ℕ → ℕ → Option (List ℕ)
original pool num = if ltb (length pool) 4 then some [] else (do
  values_start ← uint32_at pool 0
  let at = (4 + num * 4) % 2 ^ 32
  if ltb (length pool) values_start
      then none
      else if nearly_reached values_start at
      then some []
      else (do
        start ← uint32_at pool at
        end ← next_offset pool values_start ((at + 4) % 2 ^ 32)
        bytes_from pool start ((end + 2 ^ 32 - 1 + 2 ^ 32 - start) % 2 ^ 24)))

-- poolSize
unfoldable pub pool_size : List ℕ → Option ℕ
pool_size pool =
    if ltb (length pool) 4
    then some 0
    else (do values_start ← uint32_at pool 0; some ((values_start + 2 ^ 32 - 4) % 2 ^ 32 / 4))

-- An append to a gstring: it throws beyond 2 ^ 24 bytes, and the length wraps to 0 at 2 ^ 24.
unfoldable pub extend : List ℕ → List ℕ → Option (List ℕ)
extend xs ys =
    let n = length xs + length ys in
    if ltb (2 ^ 24) n then none else if n == 2 ^ 24 then some [] else some (xs ++ ys)

-- The placeholders of the offsets.
unfoldable pub placeholders : ℕ → List ℕ → Option (List ℕ)
placeholders zero out = some out
placeholders (suc k) out = do wider ← extend out (replicate 4 0); placeholders k wider

-- The loop of toBytes over the fields: `left` of them from `num` on.
unfoldable pub store_fields : (ℕ → Option (List ℕ)) → ℕ → ℕ → List ℕ → Option (List ℕ)
store_fields field zero num out = some out
store_fields field (suc left) num out = do
  bytes ← field num
  with_value ← extend out bytes
  with_zero ← extend with_value (0 ∷ [])
  store_fields field left (num + 1) (splice with_zero (4 + num * 4) (network_order (length out)))

-- The body of toBytes, for any source of the fields.
unfoldable pub write_pool : (ℕ → Option (List ℕ)) → ℕ → Option (List ℕ)
write_pool field size = do
  start ← extend [] (network_order (4 + size * 4))
  table ← placeholders size start
  store_fields field size 0 table

-- The two vectors of the changes, as one: `none` is a field that was not set.
pub record Pool : Type 0 where
  pub bytes : List ℕ
  pub changes : List (Option (List ℕ))
  pub read_only : Bool

-- changed[num] and changes[num]
abbrev pub change_at : Pool → ℕ → Option (List ℕ)
change_at p num = get_or p.changes num none

abbrev pub or_original : Option (List ℕ) → List ℕ → ℕ → Option (List ℕ)
or_original (some xs) old num = some xs
or_original none old num = original old num

unfoldable pub current : Pool → ℕ → Option (List ℕ)
current p num = or_original (change_at p num) p.bytes num

-- `resize` of the vectors.
abbrev widen : List (Option (List ℕ)) → ℕ → List (Option (List ℕ))
widen xs n = xs ++ replicate (n - length xs) none

-- set: none if the pool is read-only.
unfoldable pub set_field : ℕ → List ℕ → Pool → Option Pool
set_field num value p =
    if p.read_only
    then none
    else some (record p { changes = set (widen p.changes (num + 1)) num (some value) })

unfoldable pub is_changed : Pool → ℕ → Bool
is_changed p num = elim (change_at p num) [ none ↦ false | some xs ↦ true ]

unfoldable pub any_changed : Pool → Bool
any_changed p = not (length p.changes == 0)

-- toBytes (newPool, size, oldPool)
unfoldable pub to_bytes_from : List ℕ → ℕ → Pool → Option (List ℕ)
to_bytes_from old size p =
    if length p.changes == 0
    then some []
    else write_pool (λ num. or_original (change_at p num) old num) size

-- toBytes (newPool), without the visitor.
unfoldable pub to_bytes : Pool → Option (List ℕ)
to_bytes p = to_bytes_from p.bytes (length p.changes) p

-- from != to, on the bytes.
unfoldable pub same_bytes : List ℕ → List ℕ → Bool
same_bytes [] [] = true
same_bytes [] (y ∷ ys) = false
same_bytes (x ∷ xs) [] = false
same_bytes (x ∷ xs) (y ∷ ys) = let rest = same_bytes xs ys in x == y && rest

-- The loop of toBytesDelta without a visitor: it stops at the first field that differs from the old pool's.
unfoldable pub verified_changes : List (Option (List ℕ)) → List ℕ → ℕ → Option Bool
verified_changes [] old num = some false
verified_changes (none ∷ rest) old num = verified_changes rest old (num + 1)
verified_changes (some value ∷ rest) old num =
    let later = verified_changes rest old (num + 1) in
    (do from ← original old num; if same_bytes from value then later else some true)

-- toBytesDelta, without the visitor: the verdict and the new pool.
unfoldable pub to_bytes_delta : List ℕ → Pool → Option (Bool × List ℕ)
to_bytes_delta old p = do
  verified ← verified_changes p.changes old 0
  if verified
      then (do
        old_size ← pool_size old
        bytes ← to_bytes_from old (max (length p.changes) old_size) p
        some (true, bytes))
      else some (false, [])

unfoldable pub size : Pool → Option ℕ
size p = do stored ← pool_size p.bytes; some (max stored (length p.changes))

-- readOnly (bool ro), which sets the flag whatever `ro` is.
unfoldable pub set_read_only : Bool → Pool → Pool
set_read_only ro p = record p { read_only = true }
