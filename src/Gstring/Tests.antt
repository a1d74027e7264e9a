-- ===== src/Gstring/Tests.antt =====
-- Runs of the string operations, and the theorems at concrete strings.
use libglim.Base.{
  ℕ, ◌+◌, ◌^◌, ◌<◌, ◌≡◌, refl, true, false, inr, some, [], ◌∷◌, ◌++◌, arith, replicate, slice,
  get_elem?,
}
use libglim.Memory.{Block, Ptr, malloced, foreign, freed, read}
use libglim.Itoa.{codes}
use libglim.Gstring.{Gstring, power, capacity, length, needs_freeing, copied_by_reference}
use libglim.Netstring.{encode}
use libglim.Gstring.Object.{State, append, append_gstring, reserve, copy_construct, c_str, fault}
use libglim.Gstring.Valid.{IsValid, Held, holds, contents, Returns, Within}
use libglim.Gstring.Append.{Appended, append-appends}
use libglim.Gstring.Numbers.{append_netstring, append_netstring-appends}
use libglim.Gstring.Room.{Room, ForeignKept, reserve-Room}
use libglim.Gstring.Copies.{Terminated, copy_construct-copies, c_str-terminates}
use libglim.Gstring.Limits.{append_self-faults}

-- "hello" in an owned buffer of 8 bytes, "abc" behind somebody else's pointer.
abbrev hello_block : Block
hello_block = record { status = malloced; bytes = codes "hello" ++ 0 ∷ 0 ∷ 0 ∷ [] }

abbrev abc_block : Block
abc_block = record { status = foreign; bytes = codes "abc" }

abbrev start : Ptr
start = record { block = 0; offset = 0 }

abbrev abc : Ptr
abc = record { block = 1; offset = 0 }

abbrev hello : State
hello = record {
  self = record { meta = 0x83000005; buf = some start };
  mem = record { blocks = hello_block ∷ abc_block ∷ []; largest = 2 ^ 24; junk = 0 };
}

hello-Held : Held hello.self hello.mem start hello_block
unfolding power length needs_freeing
hello-Held = record {
  word = omega arith;
  small = omega arith;
  ptr = refl;
  at = refl;
  live = refl;
  in_length = omega arith;
  in_capacity = inr (omega arith);
  owner = λ own. (refl, refl);
}

hello-IsValid : IsValid hello.self hello.mem
hello-IsValid = holds start hello_block hello-Held

not_own : ¬ Within hello.self.buf 1
not_own e = omega (arith, e)

hello_length : length hello.self ≡ 5
unfolding length
hello_length = refl

abc_bytes : read hello.mem abc 3 ≡ some (codes "abc")
unfolding read slice
abc_bytes = refl

append-appends_example : Returns (λ _ t. Appended (codes "abc") hello t) (append (some abc) 3 hello)
append-appends_example =
    append-appends abc 3 (codes "abc") hello hello-IsValid abc_bytes not_own
      (omega (arith, hello_length)) (omega arith)

reserve-Room_example :
    Returns
      (λ _ t. ((p : Ptr) × (b : Block) × Room 20 hello t p b) × ForeignKept hello t)
      (reserve 20 hello)
reserve-Room_example =
    reserve-Room 20 hello hello-IsValid (omega (arith, hello_length)) (omega arith) (omega arith)

-- A view of the bytes "abc".
abbrev abc_view : Gstring
abc_view = record { meta = 3; buf = some abc }

abc_length : length abc_view ≡ 3
unfolding length
abc_length = refl

abc_view_bytes : read hello.mem abc (length abc_view) ≡ some (codes "abc")
abc_view_bytes = rw abc_length abc_bytes

abc_not_reference : copied_by_reference abc_view ≡ false
unfolding copied_by_reference
abc_not_reference = refl

copy_construct-copies_example :
    Returns
      (λ _ t.
        IsValid t.self t.mem
        × (contents t.self t.mem ≡ codes "abc")
        × (needs_freeing t.self ≡ true)
        × ((i : ℕ) → i < 2 → get_elem? t.mem.blocks i ≡ get_elem? hello.mem.blocks i))
      (copy_construct abc_view hello)
copy_construct-copies_example =
    copy_construct-copies abc_view abc (codes "abc") hello refl abc_view_bytes
      (omega (arith, abc_length)) abc_not_reference (omega (arith, abc_length))

c_str-terminates_example : Returns (Terminated hello) (c_str hello)
c_str-terminates_example =
    c_str-terminates hello hello-IsValid (omega (arith, hello_length)) (omega (arith, hello_length))
      (omega arith)

append_netstring-appends_example :
    Returns (λ _ t. Appended (encode (codes "abc")) hello t) (append_netstring (some abc) 3 hello)
append_netstring-appends_example =
    append_netstring-appends abc 3 (codes "abc") hello hello-IsValid abc_bytes not_own
      (omega (arith, hello_length)) (omega arith)

append_self-faults_example :
    (append_gstring hello.self hello ≡ fault)
    × Returns
        (λ _ t. get_elem? t.mem.blocks start.block ≡ some (record hello_block { status = freed }))
        (reserve (length hello.self + length hello.self) hello)
append_self-faults_example =
    append_self-faults hello start hello_block hello-Held owned_buffer (omega (arith, hello_length))
      tight (omega (arith, hello_length)) (omega arith)
  where
    owned_buffer : needs_freeing hello.self ≡ true
    owned_buffer = unfold needs_freeing in refl

    tight : capacity hello.self < length hello.self + length hello.self
    tight = unfold capacity power length in omega arith

-- "hello" as the copying constructors keep it: without a capacity.
abbrev exact : State
exact = record {
  self = record { meta = 0x80000005; buf = some start };
  mem = record {
    blocks = record { status = malloced; bytes = codes "hello" } ∷ [];
    largest = 2 ^ 24;
    junk = 0;
  };
}

exact_power : power exact.self ≡ 0
unfolding power
exact_power = refl

exact_length : length exact.self ≡ 5
unfolding length
exact_length = refl

exact_owned : needs_freeing exact.self ≡ true
unfolding needs_freeing
exact_owned = refl

-- A string in an array of 16 bytes on the stack, which holds nothing yet.
abbrev stack_block : Block
stack_block = record { status = foreign; bytes = replicate 16 0 }

abbrev stack : State
stack = record {
  self = record { meta = 0x04000000; buf = some start };
  mem = record { blocks = stack_block ∷ abc_block ∷ []; largest = 2 ^ 24; junk = 0 };
}

stack_power : power stack.self ≡ 4
unfolding power
stack_power = refl
