-- ===== src/Mdb/Index.antt =====
-- The index that a SimpleIndexTrigger keeps.
use libglim.Base.{
  ℕ, ◌≤◌, ◌≡◌, ◌≢◌, refl, inl, inr, Bool, true, none, some, List, [], ◌==◌, length, arith,
  Bool-cases, ==_refl,
}
use libglim.Compare.{equals}
use libglim.Compare.Order.{equals_iff}
use libglim.Mdb.{
  Code, success, failed, Lmdb, Outcome, returned, thrown, unfinished, Format, each_trigger, Mdb,
  add, erase, erase_kv, add_now, erase_now, erase_kv_now, in_transaction, index_erase,
  index_trigger, set_trigger, checked, checked_del,
}
use libglim.Mdb.Outcomes.{
  Kept, and_then-Kept, checked-Kept, checked_del-Kept, found_or_thrown-Kept, in_transaction-Kept,
}
use libglim.Mdb.Cut.{Indexed, Cut, apart_test, apart_back, index_erase-Cut}
use libglim.Mdb.Laws.{Dupsort}

module _ {T C : Type 0} {L : Lmdb T C} (D : Dupsort L) (main index : ℕ) (apart : main ≢ index) where
  open D use {dups}

  put-Indexed :
      (k v : List ℕ) (t u w : T)
      → L.put index v k t ≡ (success, u)
      → L.put main k v u ≡ (success, w)
      → Indexed D main index t
      → Indexed D main index w
  put-Indexed k v t u w first second ok k' v' =
      let in_index = D.put_held main k v u w second index v' k' in
      let from_index = D.put_held index v k t u first index v' k' in
      let in_main = D.put_held main k v u w second main k' v' in
      let from_main = D.put_held index v k t u first main k' v' in
      rw (in_index, in_main)
        (rw (from_index, from_main)
          (rw (apart_test D main index apart, apart_back D main index apart)
            (rw (==_refl main, ==_refl index) (rw (ok k' v') (ground arith)))))

  -- The trigger's deletion went through.
  abbrev Deleted : List ℕ → List ℕ → T → T → Type 0
  Deleted k v t u = (code : Code) × (code ≢ failed) × (L.del index v (some k) t ≡ (code, u))

  del-Indexed :
      (k v : List ℕ) (t u w : T) (code code' : Code)
      → code ≢ failed
      → L.del index v (some k) t ≡ (code, u)
      → code' ≢ failed
      → L.del main k (some v) u ≡ (code', w)
      → Indexed D main index t
      → Indexed D main index w
  del-Indexed k v t u w code code' c first c' second ok k' v' =
      let in_index = D.del_held main k v u w code' c' second index v' k' in
      let from_index = D.del_held index v k t u code c first index v' k' in
      let in_main = D.del_held main k v u w code' c' second main k' v' in
      let from_main = D.del_held index v k t u code c first main k' v' in
      rw (in_index, in_main)
        (rw (from_index, from_main)
          (rw (apart_test D main index apart, apart_back D main index apart)
            (rw (==_refl main, ==_refl index) (rw (ok k' v') (ground arith)))))

  erase-Cut :
      (key : List ℕ) (t u w : T) (code : Code)
      → Cut D main index key (dups t main key) t u
      → code ≢ failed
      → L.del main key none u ≡ (code, w)
      → Indexed D main index t
      → Indexed D main index w
  erase-Cut key t u w code cut c e ok k v =
      let in_index = D.del_all main key u w code c e index v k in
      let in_main = D.del_all main key u w code c e main k v in
      let (gone, same) = cut k v in
      rw (in_index, in_main)
        (rw (gone, same)
          (rw (apart_back D main index apart, ==_refl main)
            (rw (ok k v) (elim (Bool-cases (equals k key)) [
              | inl this ↦
                  let q : k ≡ key = (equals_iff k key).0 this in rw this (rw (← q) (ground arith))
              | inr other ↦ rw other refl
            ]))))

  module _ {K V : Type 0} (keys : Format K) (values : Format V) (rounds : ℕ) where
    -- The database with the trigger.
    abbrev pub indexed : Mdb T
    indexed = record { dbi = main; triggers = set_trigger (index_trigger L main index rounds) [] }

    add-Indexed :
        (key : K) (value : V) (t : T)
        → Indexed D main index t
        → Kept (Indexed D main index) (add L keys values indexed key value t)
    unfolding add each_trigger index_trigger set_trigger
    add-Indexed key value t ok =
        let k = keys.serialize key in
        let v = values.serialize value in
        and_then-Kept (λ u. L.put index v k t ≡ (success, u)) (Indexed D main index) _ _
          (and_then-Kept (λ u. L.put index v k t ≡ (success, u)) _ (checked (L.put index v k t)) _
            (checked-Kept (λ u. L.put index v k t ≡ (success, u)) (L.put index v k t) (λ u e. e))
            (λ _ u e. e))
          (λ _ u e.
            checked-Kept (Indexed D main index) (L.put main k v u)
              (λ w e'. put-Indexed k v t u w e e' ok))

    erase_kv-Indexed :
        (key : K) (value : V) (t : T)
        → Indexed D main index t
        → Kept (Indexed D main index) (erase_kv L keys values indexed key value t)
    unfolding erase_kv each_trigger index_trigger set_trigger
    erase_kv-Indexed key value t ok =
        let k = keys.serialize key in
        let v = values.serialize value in
        elim (Bool-cases (length k == 0)) [
          | inl empty ↦ rw empty tt
          | inr there ↦ rw there (
              and_then-Kept (Deleted k v t) (Indexed D main index) _ _
                (and_then-Kept (Deleted k v t) _ (checked_del (L.del index v (some k) t)) _
                  (checked_del-Kept (Deleted k v t) (L.del index v (some k) t)
                    (λ code u c e. (code, c, e)))
                  (λ _ u e. e))
                (λ _ u (code, c, e).
                  found_or_thrown-Kept (Indexed D main index) (L.del main k (some v) u)
                    (λ code' w c' e'. del-Indexed k v t u w code code' c e c' e' ok)))
        ]

    erase-Indexed :
        (key : K) (t : T)
        → Indexed D main index t
        → length (dups t main (keys.serialize key)) ≤ rounds
        → Kept (Indexed D main index) (erase L keys values indexed key t)
    unfolding erase each_trigger index_trigger set_trigger
    erase-Indexed key t ok h =
        let k = keys.serialize key in
        elim (Bool-cases (length k == 0)) [
          | inl empty ↦ rw empty tt
          | inr there ↦ rw there (
              and_then-Kept (Cut D main index k (dups t main k) t) (Indexed D main index) _ _
                (and_then-Kept (Cut D main index k (dups t main k) t) _
                  (index_erase L main index rounds k t) _
                  (index_erase-Cut D main index apart rounds k t h) (λ _ u e. e))
                (λ _ u cut.
                  found_or_thrown-Kept (Indexed D main index) (L.del main k none u)
                    (λ code w c e. erase-Cut k t u w code cut c e ok)))
        ]

    -- One call in a transaction of its own.
    pub data Request : Type 0 where
      adding erasing_kv : K → V → Request
      erasing : K → Request

    abbrev pub key_of : Request → K
    key_of (adding key value) = key
    key_of (erasing_kv key value) = key
    key_of (erasing key) = key

    abbrev added : Outcome (Unit {0}) (Unit {0}) × T → Outcome (Unit {0}) Bool × T
    added (returned a u, t) = (returned true u, t)
    added (thrown, t) = (thrown, t)
    added (unfinished, t) = (unfinished, t)

    added_lem :
        (P : T → Type 0) (r : Outcome (Unit {0}) (Unit {0}) × T)
        → P r.1 × (r.0 ≢ unfinished)
        → P (added r).1 × ((added r).0 ≢ unfinished)
    added_lem P (returned a u, t) (kept, over) = (kept, λ w. cc)
    added_lem P (thrown, t) (kept, over) = (kept, λ w. cc)
    added_lem P (unfinished, t) (kept, over) = absurd (over refl)

    -- One call in a transaction of its own, and the state of the environment after it.
    unfoldable pub perform : Request → T → Outcome (Unit {0}) Bool × T
    perform (adding key value) env = added (add_now L keys values indexed key value env)
    perform (erasing_kv key value) env = erase_kv_now L keys values indexed key value env
    perform (erasing key) env = erase_now L keys values indexed key env

    -- add, eraseKV and erase leave an index, in which a value and a key stand exactly if the database has
    -- the key with the value, as such an index, whether they return or throw; and they are over, if
    -- `rounds` is at least the number of values of the key.
    pub perform-Indexed :
        (request : Request) (env : T)
        → Indexed D main index env
        → length (dups env main (keys.serialize (key_of request))) ≤ rounds
        → Indexed D main index (perform request env).1 × ((perform request env).0 ≢ unfinished)
    unfolding perform add_now erase_kv_now erase_now
    perform-Indexed (adding key value) env ok enough =
        added_lem (Indexed D main index)
          (in_transaction L (add L keys values indexed key value) env)
          (in_transaction-Kept D (Indexed D main index) _ env ok (add-Indexed key value env ok))
    perform-Indexed (erasing_kv key value) env ok enough =
        in_transaction-Kept D (Indexed D main index) _ env ok (erase_kv-Indexed key value env ok)
    perform-Indexed (erasing key) env ok enough =
        in_transaction-Kept D (Indexed D main index) _ env ok (erase-Indexed key env ok enough)
