-- ===== src/Mdb/Visit.antt =====
-- What `all` visits, and how two index triggers share one name.
use libglim.Base.{
  ℕ, zero, suc, ◌<◌, ◌≤◌, ◌≡◌, ◌≢◌, refl, ap, subst, inl, inr, Bool, none, some, List, [], ◌∷◌,
  length, arith, Bool-cases, Option-cases, if◌then◌else◌,
}
use libglim.Compare.{less_than, strncmp}
use libglim.Mdb.{
  fetch_failed, Lmdb, returned, Format, set_trigger, Mdb, all, all_from, index_trigger,
}
use libglim.Mdb.Laws.{Dupsort}

-- The values up to the first one that the visitor does not want more after.
unfoldable pub until : {V : Type 0} → (V → Bool) → List V → List V
until visitor [] = []
until visitor (v ∷ vs) = let rest = until visitor vs in if visitor v then v ∷ rest else v ∷ []

-- The bytes are those of the values.
abbrev pub Decoded : {V : Type 0} → Format V → List (List ℕ) → List V → Type 0
Decoded format [] [] = Unit
Decoded format [] (v ∷ vs) = ⊥
Decoded format (b ∷ bs) [] = ⊥
Decoded format (b ∷ bs) (v ∷ vs) = (format.deserialize b ≡ some v) × Decoded format bs vs

Decoded-nil : {V : Type 0} (format : Format V) (vs : List V) → Decoded format [] vs → vs ≡ []
Decoded-nil format [] h = refl
Decoded-nil format (v ∷ vs) h = elim h [ ]

-- No call of a cursor fails.
pub record Working {T C : Type 0} (L : Lmdb T C) : Type 0 where
  pub opens : (d : ℕ) (t : T) → L.cursor_open d t ≢ none
  pub sets : (c : C) (k : List ℕ) (t : T) → L.set_key c k t ≢ fetch_failed
  pub moves : (c : C) (t : T) → L.next_dup c t ≢ fetch_failed

module _ {T C : Type 0} {L : Lmdb T C} (D : Dupsort L) (W : Working L) where
  open D use {dups, At}

  module _ {K V : Type 0} (keys : Format K) (values : Format V) (visitor : V → Bool) where
    all_from-until :
        (rounds d : ℕ) (k : List ℕ) (c : C) (b : List ℕ) (bs : List (List ℕ)) (t : T) (vs : List V)
        → At c d k bs t
        → Decoded values (b ∷ bs) vs
        → length bs < rounds
        → all_from L keys values rounds visitor c b t ≡ returned (until visitor vs) t
    unfolding all_from until
    all_from-until zero d k c b bs t vs at code h = elim h [ ]
    all_from-until (suc rounds) d k c b bs t [] at code h = elim code [ ]
    all_from-until (suc rounds) d k c b bs t (v ∷ vs) at (first, rest) h =
        elim (Bool-cases (visitor v)) [
          | inr stop ↦ rw (all_from, first) (rw stop refl)
          | inl more ↦
              rw (all_from, first)
                (rw more (elim (D.next_at c d k bs t at) [
                  | inl broken ↦ absurd (W.moves c t broken)
                  | inr (inl (over, nothing)) ↦ rw over (
                      rw (Decoded-nil values vs (subst (λ l. Decoded values l vs) nothing rest))
                        refl)
                  | inr (inr (c', b', bs', e, shape, at')) ↦ rw e (
                      rw
                        (all_from-until rounds d k c' b' bs' t vs at'
                          (subst (λ l. Decoded values l vs) shape rest)
                          (omega (arith, h, ap length shape)))
                        refl)
                ]))
        ]

    -- If the values of the key are those of `vs`, no cursor fails and there are rounds enough, `all` visits
    -- them in order up to the first one at which the visitor says stop, returns their number, and leaves
    -- the state as it is.
    pub all-until :
        (rounds : ℕ) (m : Mdb T) (key : K) (t : T) (vs : List V)
        → Decoded values (dups t m.dbi (keys.serialize key)) vs
        → length (dups t m.dbi (keys.serialize key)) ≤ rounds
        → all L keys values rounds m key visitor t
          ≡ returned (until visitor vs, length (until visitor vs)) t
    unfolding all until
    all-until rounds m key t vs code h = elim (Option-cases (L.cursor_open m.dbi t)) [
      | inl closed ↦ absurd (W.opens m.dbi t closed)
      | inr (c, opened) ↦
          rw (all, opened)
            (elim (D.open_set m.dbi (keys.serialize key) t c opened) [
              | inl broken ↦ absurd (W.sets c (keys.serialize key) t broken)
              | inr (inl (over, empty)) ↦
                  rw over
                    (rw (Decoded-nil values vs (subst (λ l. Decoded values l vs) empty code)) refl)
              | inr (inr (c', b, bs, e, shape, at)) ↦ rw e (
                  rw
                    (all_from-until rounds m.dbi (keys.serialize key) c' b bs t vs at
                      (subst (λ l. Decoded values l vs) shape code)
                      (omega (arith, h, ap length shape)))
                    refl)
            ])
    ]

module _ {T C : Type 0} (L : Lmdb T C) where
  -- A second SimpleIndexTrigger replaces the first one, whatever its database and its index are.
  pub set_trigger-index :
      (main index rounds main' index' rounds' : ℕ)
      → set_trigger
          (index_trigger L main' index' rounds')
          (set_trigger (index_trigger L main index rounds) [])
        ≡ index_trigger L main' index' rounds' ∷ []
  unfolding set_trigger index_trigger less_than strncmp
  set_trigger-index main index rounds main' index' rounds' = refl
