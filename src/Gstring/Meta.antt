-- ===== src/Gstring/Meta.antt =====
-- The control word: every getter reads back what a setter wrote and leaves the other fields alone.
use Prim.Native.Nat.{bit_and, bit_or}
use libglim.Base.{
  ℕ, ◌+◌, ◌-◌, ◌*◌, ◌/◌, ◌%◌, ◌^◌, ◌<◌, zero, suc, ◌≡◌, refl, Bool, true, false, not, Option, ◌==◌,
  arith,
}
use libglim.Words.{and_low, and_high, or_fields, and_split, or_split, or-zero_lem}
use libglim.Memory.{Ptr}
use libglim.Gstring.{
  Gstring, free_flag, ref_flag, capacity_mask, length_mask, needs_freeing, copied_by_reference,
  power, length, set_length, set_power, set_free, pack, flag_bit, complement,
}

length_mod : (m : ℕ) → bit_and m length_mask ≡ m % 2 ^ 24
length_mod m = and_low 24 m

power_mod : (m : ℕ) → bit_and m capacity_mask ≡ (m / 2 ^ 24 % 64) * 2 ^ 24
power_mod m = omega (arith, and_high 24 m 63, and_low 6 (m / 2 ^ 24))

free_mod : (m : ℕ) → bit_and m free_flag ≡ (m / 2 ^ 31 % 2) * 2 ^ 31
free_mod m = omega (arith, and_high 31 m 1, and_low 1 (m / 2 ^ 31))

ref_mod : (m : ℕ) → bit_and m ref_flag ≡ (m / 2 ^ 30 % 2) * 2 ^ 30
ref_mod m = omega (arith, and_high 30 m 1, and_low 1 (m / 2 ^ 30))

all_but_length : (m : ℕ) → bit_and m (complement length_mask) ≡ (m / 2 ^ 24 % 256) * 2 ^ 24
all_but_length m = omega (arith, and_high 24 m 255, and_low 8 (m / 2 ^ 24))

all_but_power :
    (m : ℕ) → bit_and m (complement capacity_mask) ≡ (m / 2 ^ 30 % 4) * 2 ^ 30 + m % 2 ^ 24
all_but_power m = ground (
  arith,
  and_split 24 (m / 2 ^ 24) 192 (m % 2 ^ 24) (2 ^ 24 - 1),
  and_high 6 (m / 2 ^ 24) 3,
  and_low 2 (m / 2 ^ 24 / 2 ^ 6),
  and_low 24 (m % 2 ^ 24),
)

-- The getters and setters as arithmetic on the word.
pub length_arith : (g : Gstring) → length g ≡ g.meta % 2 ^ 24
unfolding length
length_arith g = length_mod g.meta

power_arith : (g : Gstring) → power g ≡ g.meta / 2 ^ 24 % 64
unfolding power
power_arith g = rw power_mod (omega arith)

free_arith : (g : Gstring) → needs_freeing g ≡ not ((g.meta / 2 ^ 31 % 2) * 2 ^ 31 == 0)
unfolding needs_freeing
free_arith g = rw free_mod

ref_arith : (g : Gstring) → copied_by_reference g ≡ not ((g.meta / 2 ^ 30 % 2) * 2 ^ 30 == 0)
unfolding copied_by_reference
ref_arith g = rw ref_mod

set_length_arith :
    (n : ℕ) (g : Gstring) → (set_length n g).meta ≡ (g.meta / 2 ^ 24 % 256) * 2 ^ 24 + n % 2 ^ 24
unfolding set_length
set_length_arith n g =
    rw (all_but_length, length_mod)
      (or_fields 24 (g.meta / 2 ^ 24 % 256) (n % 2 ^ 24) (omega arith))

set_power_arith :
    (p : ℕ) (g : Gstring)
    → p < 64
    → (set_power p g).meta ≡ (g.meta / 2 ^ 30 % 4) * 2 ^ 30 + p * 2 ^ 24 + g.meta % 2 ^ 24
unfolding set_power
set_power_arith p g h = rw all_but_power (
    ground (
      arith,
      or_split 24 ((g.meta / 2 ^ 30 % 4) * 2 ^ 6) p (g.meta % 2 ^ 24) 0,
      or_fields 6 (g.meta / 2 ^ 30 % 4) p,
      or-zero_lem (g.meta % 2 ^ 24),
    ))

or_one : (a : ℕ) → a < 2 → bit_or a 1 ≡ 1
or_one zero h = refl
or_one (suc zero) h = refl
or_one (suc (suc a)) h = absurd (omega arith)

set_free_arith : (g : Gstring) → g.meta < 2 ^ 32 → (set_free g).meta ≡ g.meta % 2 ^ 31 + 2 ^ 31
unfolding set_free
set_free_arith g h = ground (
  arith,
  or_split 31 (g.meta / 2 ^ 31) 1 (g.meta % 2 ^ 31) 0,
  or_one (g.meta / 2 ^ 31),
  or-zero_lem (g.meta % 2 ^ 31),
)

pack_flags :
    (f p len : ℕ)
    → p < 64
    → bit_or (bit_or (f * 2 ^ 30) (p * 2 ^ 24)) (len % 2 ^ 24)
      ≡ f * 2 ^ 30 + p * 2 ^ 24 + len % 2 ^ 24
pack_flags f p len h =
    ground (arith, or_fields 30 f (p * 2 ^ 24), or_fields 24 (f * 64 + p) (len % 2 ^ 24))

pack_arith :
    (free ref : Bool) (p len : ℕ)
    → p < 64
    → pack free ref p len ≡ flag_bit free 31 + flag_bit ref 30 + p * 2 ^ 24 + len % 2 ^ 24
unfolding pack
pack_arith true true p len h = rw length_mod (pack_flags 3 p len h)
pack_arith true false p len h = rw length_mod (pack_flags 2 p len h)
pack_arith false true p len h = rw length_mod (pack_flags 1 p len h)
pack_arith false false p len h = rw length_mod (pack_flags 0 p len h)

-- What the four fields of a control word are.
pub record Fields (g : Gstring) (free ref : Bool) (p len : ℕ) : Type 0 where
  pub freeing : needs_freeing g ≡ free
  pub by_reference : copied_by_reference g ≡ ref
  pub the_power : power g ≡ p
  pub the_length : length g ≡ len
  pub is_word : g.meta < 2 ^ 32

Fields-of :
    (free ref : Bool) (g : Gstring) (p len : ℕ)
    → p < 64
    → len < 2 ^ 24
    → g.meta ≡ flag_bit free 31 + flag_bit ref 30 + p * 2 ^ 24 + len
    → Fields g free ref p len
Fields-of true true g p len h k e =
    ground (arith, free_arith g, ref_arith g, power_arith g, length_arith g)
Fields-of _ _ g p len h k e =
    ground (arith, free_arith g, ref_arith g, power_arith g, length_arith g)

-- The word is determined by its fields.
meta_of :
    (free ref : Bool) (g : Gstring) (p len : ℕ)
    → Fields g free ref p len
    → g.meta ≡ flag_bit free 31 + flag_bit ref 30 + p * 2 ^ 24 + len
meta_of true true g p len f =
    ground (arith, free_arith g, ref_arith g, power_arith g, length_arith g)
meta_of _ _ g p len f = ground (arith, free_arith g, ref_arith g, power_arith g, length_arith g)

pub Fields-bounds :
    (free ref : Bool) (g : Gstring) (p len : ℕ)
    → Fields g free ref p len
    → (p < 64) × (len < 2 ^ 24)
Fields-bounds free ref g p len f =
    (omega (arith, f.the_power, power_arith g), omega (arith, f.the_length, length_arith g))

-- The four fields of a word that a constructor builds are those that it was given, the length
-- modulo 2 ^ 24.
pub Fields-pack :
    (free ref : Bool) (p len : ℕ) (buf : Option Ptr)
    → p < 64
    → Fields (record { meta = pack free ref p len; buf = buf }) free ref p (len % 2 ^ 24)
Fields-pack free ref p len buf h =
    Fields-of free ref _ p _ h (omega arith) (pack_arith free ref p len h)

-- The two flags as one number.
flags_exist :
    (free ref : Bool) → (x : ℕ) × (flag_bit free 31 + flag_bit ref 30 ≡ x * 2 ^ 30) × (x < 4)
flags_exist true true = (3, refl, omega arith)
flags_exist true false = (2, refl, omega arith)
flags_exist false true = (1, refl, omega arith)
flags_exist false false = (0, refl, omega arith)

-- The length setter keeps the flags and the power, and cuts the length to 24 bits.
pub Fields-set_length :
    (free ref : Bool) (g : Gstring) (p len n : ℕ)
    → Fields g free ref p len
    → Fields (set_length n g) free ref p (n % 2 ^ 24)
Fields-set_length free ref g p len n f =
    let (x, e, hx) = flags_exist free ref in
    let b = Fields-bounds free ref g p len f in
    let m = meta_of free ref g p len f in
    Fields-of free ref _ p _ b.0 (omega arith) (omega (arith, set_length_arith n g))

pub Fields-set_power :
    (free ref : Bool) (g : Gstring) (p len q : ℕ)
    → Fields g free ref p len
    → q < 64
    → Fields (set_power q g) free ref q len
Fields-set_power free ref g p len q f h =
    let (x, e, hx) = flags_exist free ref in
    let b = Fields-bounds free ref g p len f in
    let m = meta_of free ref g p len f in
    Fields-of free ref _ q len h b.1 (omega (arith, set_power_arith q g h))

pub Fields-set_free :
    (free ref : Bool) (g : Gstring) (p len : ℕ)
    → Fields g free ref p len
    → Fields (set_free g) true ref p len
Fields-set_free free ref g p len f =
    let b = Fields-bounds free ref g p len f in
    let m = meta_of free ref g p len f in Fields-of true ref _ p len b.0 b.1 (drop_free free ref m)
  where
    drop_free :
        (u v : Bool)
        → g.meta ≡ flag_bit u 31 + flag_bit v 30 + p * 2 ^ 24 + len
        → (set_free g).meta ≡ flag_bit true 31 + flag_bit v 30 + p * 2 ^ 24 + len
    drop_free true true e =
        grind (arith, set_free_arith g f.is_word, Fields-bounds free ref g p len f)
    drop_free _ _ e = grind (arith, set_free_arith g f.is_word, Fields-bounds free ref g p len f)

pub own-Fields :
    (g : Gstring)
    → g.meta < 2 ^ 32
    → Fields g (needs_freeing g) (copied_by_reference g) (power g) (length g)
own-Fields g h = record {
  freeing = refl;
  by_reference = refl;
  the_power = refl;
  the_length = refl;
  is_word = h;
}

-- The fields do not depend on the pointer.
pub Fields-buf :
    (free ref : Bool) (g : Gstring) (p len : ℕ) (buf : Option Ptr)
    → Fields g free ref p len
    → Fields (record g { buf = buf }) free ref p len
unfolding needs_freeing copied_by_reference power length
Fields-buf free ref g p len buf f = record {
  freeing = f.freeing;
  by_reference = f.by_reference;
  the_power = f.the_power;
  the_length = f.the_length;
  is_word = f.is_word;
}
