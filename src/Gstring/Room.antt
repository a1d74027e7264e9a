-- ===== src/Gstring/Room.antt =====
-- `reserve` on every branch.
use native.Mathlib.Nat.{pow-le-pow_right, le_trans}
use libglim.Base
use libglim.Base.{
  ℕ, zero, suc, ◌+◌, ◌-◌, ◌^◌, ◌≤◌, ◌<◌, ◌≡◌, ◌≢◌, refl, sym, true, false, not, ◌⊎◌, inl, inr,
  Option, none, some, List, ◌++◌, get_elem?, slice, arith, ltb, leb, ◌==◌, if◌then◌else◌,
  Bool-cases, ◌∙◌, ℕ_discrete, ap,
}
use libglim.Memory.{Block, Ptr, malloced}
use libglim.Gstring.{needs_freeing, power, length}
use libglim.Gstring.Object.{State, done, reserve, rebuffer, grow}
use libglim.Gstring.Valid.{
  contents, Held, IsValid, blank, holds, Returns, Returns-mono, IsValid-small, Keeps, Within,
}
use libglim.Gstring.Reserve.{fresh, grow_lem, below_bound}
use libglim.Gstring.Regrown.{
  Regrown, contents-Held, rebuffer-Regrown_owned, rebuffer-Regrown_view, rebuffer-Regrown_blank,
}

-- The string has room for `to` bytes in the block `b`, and is otherwise as it was.
pub record Room (to : ℕ) (s t : State) (p : Ptr) (b : Block) : Type 0 where
  pub held : Held t.self t.mem p b
  pub room : p.offset + 2 ^ power t.self ≤ Base.length b.bytes
  pub enough : to ≤ 2 ^ power t.self
  pub same_length : length t.self ≡ length s.self
  pub same_contents : contents t.self t.mem ≡ contents s.self s.mem
  pub frame : Keeps s.self s.mem t.mem
  pub elsewhere : (i : ℕ) → i < Base.length s.mem.blocks → ¬ Within s.self.buf i → p.block ≢ i
  pub limit : t.mem.largest ≡ s.mem.largest

Regrown-Held :
    (q : ℕ) (s t : State) (bytes : List ℕ)
    → Regrown q s t bytes
    → q ≤ 24
    → length s.self ≤ 2 ^ q
    → Held t.self t.mem (fresh s.mem) (record { status = malloced; bytes = bytes })
Regrown-Held q s t bytes r small fits = record {
  word = r.fields.is_word;
  small = rw (r.fields.the_power) small;
  ptr = r.place;
  at = r.block;
  live = refl;
  in_length = omega (arith, r.fields.the_length, r.size);
  in_capacity = inr (rw (r.fields.the_power) (omega (arith, r.size)));
  owner = λ _. (refl, refl);
}

Regrown-Room :
    (to q : ℕ) (s t : State) (bytes : List ℕ)
    → Regrown q s t bytes
    → q ≤ 24
    → to ≤ 2 ^ q
    → length s.self ≤ 2 ^ q
    → Room to s t (fresh s.mem) (record { status = malloced; bytes = bytes })
Regrown-Room to q s t bytes r small enough fits = record {
  held = Regrown-Held q s t bytes r small fits;
  room = rw (r.fields.the_power) (omega (arith, r.size));
  enough = rw (r.fields.the_power) enough;
  same_length = r.fields.the_length;
  same_contents =
      contents-Held t.self t.mem _ _ (Regrown-Held q s t bytes r small fits)
      ∙ rw (r.fields.the_length) (r.kept);
  frame = r.frame;
  elsewhere = λ i below other. omega arith;
  limit = r.limit;
}

-- Blocks that were not the string's own are left alone, also the one that it points into.
abbrev pub ForeignKept : State → State → Type 0
ForeignKept s t =
    needs_freeing s.self ≡ false
    → (i : ℕ) → i < Base.length s.mem.blocks
    → get_elem? t.mem.blocks i ≡ get_elem? s.mem.blocks i

abbrev Roomy : ℕ → State → Unit {0} → State → Type 0
Roomy to s _ t = ((p : Ptr) × (b : Block) × Room to s t p b) × ForeignKept s t

rebuffer-Roomy :
    (to q : ℕ) (s : State)
    → IsValid s.self s.mem
    → q ≤ 24
    → to ≤ 2 ^ q
    → length s.self ≤ 2 ^ q
    → 2 ^ q ≤ s.mem.largest
    → Returns (Roomy to s) (rebuffer q s)
rebuffer-Roomy to q s v small enough fits granted =
    Returns-mono (λ _ t. (bytes : List ℕ) × Regrown q s t bytes) (Roomy to s) (rebuffer q s)
      (λ _ t r. ((fresh s.mem, _, Regrown-Room to q s t r.0 r.1 small enough fits), r.1.foreign))
      (regrown v)
  where
    regrown :
        IsValid s.self s.mem
        → Returns (λ _ t. (bytes : List ℕ) × Regrown q s t bytes) (rebuffer q s)
    regrown (blank w e p l) = rebuffer-Regrown_blank q s w e l (omega arith) granted
    regrown (holds p b h) = elim (Bool-cases (needs_freeing s.self)) [
      | inl own ↦ rebuffer-Regrown_owned q s p b h own fits (omega arith) granted
      | inr lent ↦ rebuffer-Regrown_view q s p b h lent fits (omega arith) granted
    ]

pub reserve_grows :
    (to q : ℕ) (s : State)
    → power s.self ≤ 24
    → ltb (2 ^ power s.self) to ≡ true
    → grow (31 - power s.self) (power s.self + 1) to ≡ some q
    → q ≤ 24
    → reserve to s ≡ rebuffer q s
unfolding reserve
reserve_grows to q s small less found below = ground arith

pub reserve_exact :
    (to : ℕ) (s : State)
    → ltb (2 ^ power s.self) to ≡ false
    → power s.self ≡ 0
    → reserve to s ≡ rebuffer (power s.self) s
unfolding reserve
reserve_exact to s more e = ground arith

reserve_enough :
    (to : ℕ) (s : State)
    → power s.self ≤ 24
    → ltb (2 ^ power s.self) to ≡ false
    → power s.self ≢ 0
    → reserve to s ≡ done tt s
unfolding reserve
reserve_enough to s small more e = ground arith

pub Held-Room :
    (to : ℕ) (s : State)
    → IsValid s.self s.mem
    → to ≤ 2 ^ power s.self
    → power s.self ≢ 0
    → Roomy to s tt s
Held-Room to s (blank w e p l) h ne = absurd (ne p)
Held-Room to s (holds p b h) enough ne = (
  (
    p,
    b,
    record {
      held = h;
      room = elim h.in_capacity [ inl z ↦ absurd (ne z) | inr r ↦ r ];
      enough = enough;
      same_length = refl;
      same_contents = refl;
      frame = λ i below other. refl;
      elsewhere = λ i below other e. other (rw (h.ptr) e);
      limit = refl;
    },
  ),
  λ not_own i below. refl,
)

-- A valid string gets room for `to` bytes, if `to` covers its length and is at most 2 ^ 24: it lies in a
-- block that holds `to` bytes and that it may write, with its length and contents as before. No block is
-- touched but the one the string points into, and not even that one if it is not the string's own. malloc
-- grants blocks of 2 ^ 24 bytes.
pub reserve-Room :
    (to : ℕ) (s : State)
    → IsValid s.self s.mem
    → length s.self ≤ to
    → to ≤ 2 ^ 24
    → 2 ^ 24 ≤ s.mem.largest
    → Returns (λ _ t. ((p : Ptr) × (b : Block) × Room to s t p b) × ForeignKept s t) (reserve to s)
reserve-Room to s v h g fits =
    let small = IsValid-small s.self s.mem v in
    elim (Bool-cases (ltb (2 ^ power s.self) to)) [
      | inl less ↦
          let (q, found, enough, above, below) =
            grow_lem (31 - power s.self) (power s.self + 1) 24 to
              (below_bound (power s.self) 24 to small g less) (omega arith) g in
          rw (reserve_grows to q s small less found below) (
            rebuffer-Roomy to q s v below enough (omega arith)
              (le_trans (pow-le-pow_right {n = 2} (omega arith) below) fits))
      | inr more ↦ elim (ℕ_discrete (power s.self) 0) [
        | yes e ↦ rw (reserve_exact to s more e) (
            rebuffer-Roomy to (power s.self) s v small (not_less more)
              (omega (arith, not_less more))
              (le_trans (pow-le-pow_right {n = 2} (omega arith) small) fits))
        | no ne ↦ rw (reserve_enough to s small more ne) (Held-Room to s v (not_less more) ne)
      ]
    ]
  where
    not_less : ltb (2 ^ power s.self) to ≡ false → to ≤ 2 ^ power s.self
    not_less e = ground arith

pub reserve_lem :
    (to : ℕ) (s : State)
    → IsValid s.self s.mem
    → length s.self ≤ to
    → to ≤ 2 ^ 24
    → 2 ^ 24 ≤ s.mem.largest
    → Returns (λ _ t. (p : Ptr) × (b : Block) × Room to s t p b) (reserve to s)
reserve_lem to s v h g fits =
    Returns-mono (Roomy to s) (λ _ t. (p : Ptr) × (b : Block) × Room to s t p b) (reserve to s)
      (λ _ t r. r.0) (reserve-Room to s v h g fits)
