-- ===== src/Mdb/Walk.antt =====
-- The range of the values of a key, as a loop over iterators sees it.
use libglim.Base.{
  ℕ, zero, suc, ◌<◌, ◌≡◌, ◌≢◌, refl, ap, inl, inr, true, Option, none, some, List, [], ◌∷◌, length,
  arith, Option-cases, if◌then◌else◌, ==_ne,
}
use libglim.Compare.{equals, memcmp_same}
use libglim.Mdb.{Lmdb}
use libglim.Mdb.Laws.{Dupsort}
use libglim.Mdb.Visit.{Working}
use libglim.Mdb.Iterators.{Iterator, at_key, same_place, end_iterator, increment}

module _ {T C : Type 0} (L : Lmdb T C) where
  abbrev consed : List ℕ → Option (List (List ℕ)) → Option (List (List ℕ))
  consed value none = none
  consed value (some vs) = some (value ∷ vs)

  -- `for (auto&& entry: valuesRange)`: the values of the entries, up to an iterator that is equal to `end`;
  -- none is an exception, undefined behaviour, or more rounds.
  unfoldable pub values_of : ℕ → Option (Iterator C) → T → Option (List (List ℕ))
  values_of zero o t = none
  values_of (suc rounds) none t = none
  values_of (suc rounds) (some it) t =
      let rest = values_of rounds (increment L it t) t in
      elim (same_place it end_iterator) [
        | none ↦ none
        | some same ↦ if same then some [] else consed it.value rest
      ]

module _ {T C : Type 0} {L : Lmdb T C} (D : Dupsort L) (W : Working L) where
  open D use {dups, At}

  abbrev here : C → List ℕ → List ℕ → Iterator C
  here c k b = record { cursor = some c; key = k; value = b; stay_in_key = true }

  values_of_step :
      (rounds : ℕ) (c : C) (k b : List ℕ) (t : T)
      → length k ≢ 0
      → values_of L (suc rounds) (some (here c k b)) t
        ≡ consed L b (values_of L rounds (increment L (here c k b) t) t)
  unfolding values_of same_place equals
  values_of_step rounds c k b t there = rw (==_ne (length k) 0 there) refl

  values_of_end :
      (rounds : ℕ) (c : C) (t : T) → values_of L (suc rounds) (some (here c [] [])) t ≡ some []
  unfolding values_of same_place equals
  values_of_end rounds c t = unfold memcmp_same in refl

  walk_lem :
      (rounds d : ℕ) (k : List ℕ) (c : C) (b : List ℕ) (bs : List (List ℕ)) (t : T)
      → length k ≢ 0
      → At c d k bs t
      → suc (length bs) < rounds
      → values_of L rounds (some (here c k b)) t ≡ some (b ∷ bs)
  unfolding increment
  walk_lem zero d k c b bs t there at h = elim h [ ]
  walk_lem (suc zero) d k c b bs t there at h = absurd (omega (arith, h))
  walk_lem (suc (suc rounds)) d k c b bs t there at h =
      rw (values_of_step (suc rounds) c k b t there) (elim (D.next_at c d k bs t at) [
        | inl broken ↦ absurd (W.moves c t broken)
        | inr (inl (over, nothing)) ↦ rw (over, nothing) (rw (values_of_end rounds c t) refl)
        | inr (inr (c', b', bs', e, shape, at')) ↦
            rw (e, shape)
              (rw
                (walk_lem (suc rounds) d k c' b' bs' t there at'
                  (omega (arith, h, ap length shape)))
                refl)
      ])

  -- A loop over the values of a key that is not empty sees them all in their order, if no cursor fails and
  -- it has more rounds than there are values.
  pub values_of-dups :
      (rounds d : ℕ) (k : List ℕ) (t : T)
      → length k ≢ 0
      → length (dups t d k) < rounds
      → values_of L rounds (at_key L d k true t) t ≡ some (dups t d k)
  unfolding at_key
  values_of-dups zero d k t there h = elim h [ ]
  values_of-dups (suc rounds) d k t there h = elim (Option-cases (L.cursor_open d t)) [
    | inl closed ↦ absurd (W.opens d t closed)
    | inr (c, opened) ↦
        rw (at_key, opened)
          (elim (D.open_set d k t c opened) [
            | inl broken ↦ absurd (W.sets c k t broken)
            | inr (inl (over, empty)) ↦ rw (over, empty) (values_of_end rounds c t)
            | inr (inr (c', b, bs, e, shape, at)) ↦
                rw (e, shape)
                  (walk_lem (suc rounds) d k c' b bs t there at (omega (arith, h, ap length shape)))
          ])
  ]
