-- ===== src/Mdb/Cut.antt =====
-- What the trigger's erase takes out of the index.
use libglim.Base.{
  ℕ, zero, suc, ◌<◌, ◌≤◌, ◌≡◌, ◌≢◌, refl, sym, ap, ◌∙◌, inl, inr, false, not, ◌&&◌, some, List, [],
  ◌∷◌, ◌==◌, length, arith, Option-cases, ==_refl, ==_ne,
}
use libglim.Compare.{equals}
use libglim.Mdb.{
  Code, failed, Lmdb, Outcome, returned, thrown, unfinished, erase_indexed, index_erase,
  checked_del,
}
use libglim.Mdb.Outcomes.{Kept, and_then-Kept, checked_del-Kept}
use libglim.Mdb.Laws.{member, Dupsort}

module _ {T C : Type 0} {L : Lmdb T C} (D : Dupsort L) (main index : ℕ) where
  open D use {dups}

  -- The index has the pair (v, k) exactly if the database has (k, v).
  abbrev pub Indexed : T → Type 0
  Indexed t = (k v : List ℕ) → member k (dups t index v) ≡ member v (dups t main k)

  -- From t to u, the pairs of `key` with the values `vs` left the index, and the database is the same.
  abbrev pub Cut : List ℕ → List (List ℕ) → T → T → Type 0
  Cut key vs t u =
      (k v : List ℕ)
      → (member k (dups u index v)
          ≡ (not (equals k key && member v vs) && member k (dups t index v)))
        × (member v (dups u main k) ≡ member v (dups t main k))

module _ {T C : Type 0} {L : Lmdb T C} (D : Dupsort L) (main index : ℕ) (apart : main ≢ index) where
  open D use {dups, At}

  pub apart_test : (main == index) ≡ false
  apart_test = ==_ne main index apart

  pub apart_back : (index == main) ≡ false
  apart_back = ==_ne index main (λ e. apart (sym e))

  del-Cut :
      (key value : List ℕ) (t u : T) (code : Code)
      → code ≢ failed
      → L.del index value (some key) t ≡ (code, u)
      → Cut D main index key (value ∷ []) t u
  unfolding member
  del-Cut key value t u code ok e k v =
      let gone = D.del_held index value key t u code ok e index v k in
      let same = D.del_held index value key t u code ok e main k v in
      (rw gone (rw (==_refl index) (ground arith)), rw same (rw apart_test refl))

  Cut-trans :
      (key value : List ℕ) (vs : List (List ℕ)) (t u w : T)
      → Cut D main index key (value ∷ []) t u
      → Cut D main index key vs u w
      → Cut D main index key (value ∷ vs) t w
  unfolding member
  Cut-trans key value vs t u w first rest k v =
      let (gone, same) = first k v in
      let (gone', same') = rest k v in (rw (gone', gone) (ground arith), same' ∙ same)

  erase_indexed-Cut :
      (rounds : ℕ) (key : List ℕ) (c : C) (value : List ℕ) (rest : List (List ℕ)) (t : T)
      → At c main key rest t
      → length rest < rounds
      → Kept
          (Cut D main index key (value ∷ rest) t)
          (erase_indexed L main index rounds key c value t)
  unfolding erase_indexed
  erase_indexed-Cut zero key c value rest t at h = elim h [ ]
  erase_indexed-Cut (suc rounds) key c value rest t at h =
      and_then-Kept (λ u. Cut D main index key (value ∷ []) t u × At c main key rest u) _
        (checked_del (L.del index value (some key) t)) _
        (checked_del-Kept (λ u. Cut D main index key (value ∷ []) t u × At c main key rest u)
          (L.del index value (some key) t)
          (λ code u ok e. (
            del-Cut key value t u code ok e,
            D.del_at c main index key value key rest t u code (λ q. apart (sym q)) at e,
          )))
        (λ _ u (cut, at'). elim (D.next_at c main key rest u at') [
          | inl broken ↦ rw broken tt
          | inr (inl (over, none_left)) ↦ rw (over, none_left) cut
          | inr (inr (c', v, more, e, shape, at'')) ↦
              rw (e, shape)
                (widened v more u cut (erase_indexed L main index rounds key c' v u) (
                  erase_indexed-Cut rounds key c' v more u at''
                    (omega (arith, h, ap length shape))))
        ])
    where
      widened :
          (v : List ℕ) (more : List (List ℕ)) (u : T)
          → Cut D main index key (value ∷ []) t u
          → (o : Outcome T (Unit {0})) → Kept (Cut D main index key (v ∷ more) u) o
          → Kept (Cut D main index key (value ∷ v ∷ more) t) o
      widened v more u cut (returned a w) k = Cut-trans key value (v ∷ more) t u w cut k
      widened v more u cut thrown k = tt
      widened v more u cut unfinished k = k

  pub index_erase-Cut :
      (rounds : ℕ) (key : List ℕ) (t : T)
      → length (dups t main key) ≤ rounds
      → Kept (Cut D main index key (dups t main key) t) (index_erase L main index rounds key t)
  unfolding index_erase member
  index_erase-Cut rounds key t h = elim (Option-cases (L.cursor_open main t)) [
    | inl closed ↦ rw (index_erase, closed) tt
    | inr (c, opened) ↦
        rw (index_erase, opened)
          (elim (D.open_set main key t c opened) [
            | inl broken ↦ rw broken tt
            | inr (inl (over, empty)) ↦ rw (over, empty) (λ k v. (ground arith, refl))
            | inr (inr (c', v, rest, e, shape, at)) ↦
                rw (e, shape)
                  (erase_indexed-Cut rounds key c' v rest t at (omega (arith, h, ap length shape)))
          ])
  ]
