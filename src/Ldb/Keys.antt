-- ===== src/Ldb/Keys.antt =====
-- uint32_t keys: their bytes give the number back, and are in the order of the numbers.
use libglim.Base.{
  ℕ, ◌+◌, ◌*◌, ◌/◌, ◌%◌, ◌^◌, ◌<◌, ◌≡◌, ap, ◌∙◌, false, ◌&&◌, ◌||◌, some, ltb, ◌==◌, arith,
}
use libglim.Pool.{network_order}
use libglim.Pool.Bytes.{from_network-network_order}
use libglim.Ldb.{below, serialize_uint32, deserialize_uint32}

-- A byte in front of one, two and three others.
byte_1 :
    (a b x y : ℕ)
    → x < 256
    → y < 256
    → (ltb a b || a == b && ltb x y) ≡ ltb (a * 256 + x) (b * 256 + y)
byte_1 a b x y h g = ground arith

byte_2 :
    (a b x y : ℕ)
    → x < 65536
    → y < 65536
    → (ltb a b || a == b && ltb x y) ≡ ltb (a * 65536 + x) (b * 65536 + y)
byte_2 a b x y h g = ground arith

byte_3 :
    (a b x y : ℕ)
    → x < 16777216
    → y < 16777216
    → (ltb a b || a == b && ltb x y) ≡ ltb (a * 16777216 + x) (b * 16777216 + y)
byte_3 a b x y h g = ground arith

last_byte : (x y : ℕ) → (ltb x y || x == y && false) ≡ ltb x y
last_byte x y = ground arith

below-network_order :
    (a b : ℕ) → a < 2 ^ 32 → b < 2 ^ 32 → below (network_order a) (network_order b) ≡ ltb a b
unfolding below
below-network_order a b h g = rw (last_byte (a % 256) (b % 256)) (
    rw (byte_1 (a / 256 % 256) (b / 256 % 256) (a % 256) (b % 256) (omega arith) (omega arith)) (
      rw
        (byte_2 (a / 65536 % 256) (b / 65536 % 256) (a / 256 % 256 * 256 + a % 256)
          (b / 256 % 256 * 256 + b % 256) (omega arith) (omega arith))
        (byte_3 (a / 16777216 % 256) (b / 16777216 % 256) _ _ (omega arith) (omega arith) ∙ whole)))
  where
    number :
        (n : ℕ)
        → n < 2 ^ 32
        → n / 16777216 % 256 * 16777216
            + (n / 65536 % 256 * 65536 + (n / 256 % 256 * 256 + n % 256))
          ≡ n
    number n h = omega arith

    whole :
        ltb
          (a / 16777216 % 256 * 16777216
            + (a / 65536 % 256 * 65536 + (a / 256 % 256 * 256 + a % 256)))
          (b / 16777216 % 256 * 16777216
            + (b / 65536 % 256 * 65536 + (b / 256 % 256 * 256 + b % 256)))
        ≡ ltb a b
    whole =
        ap
          (λ (k : ℕ). ltb k (
            b / 16777216 % 256 * 16777216
            + (b / 65536 % 256 * 65536 + (b / 256 % 256 * 256 + b % 256))))
          (number a h)
        ∙ ap (λ (k : ℕ). ltb a k) (number b g)

-- A key is read back, and keys of numbers are in the order of the numbers.
pub serialize_uint32-ordered :
    (a b : ℕ)
    → a < 2 ^ 32
    → b < 2 ^ 32
    → (deserialize_uint32 (serialize_uint32 a) ≡ some a)
      × (below (serialize_uint32 a) (serialize_uint32 b) ≡ ltb a b)
unfolding serialize_uint32 deserialize_uint32
serialize_uint32-ordered a b h g =
    (ap some (from_network-network_order a h), below-network_order a b h g)
