-- ===== src/Mdb/Laws.antt =====
-- What the theorems assume of LMDB: its documented behaviour, for databases with MDB_DUPSORT, in terms of
-- the values that a state holds for a key.
use libglim.Base.{ℕ, ◌≡◌, ◌≢◌, ◌⊎◌, Bool, false, not, ◌&&◌, ◌||◌, none, some, List, [], ◌∷◌, ◌==◌}
use libglim.Compare.{equals}
use libglim.Mdb.{Code, success, failed, fetched, no_more, fetch_failed, Lmdb}

unfoldable pub member : List ℕ → List (List ℕ) → Bool
member v [] = false
member v (w ∷ ws) = equals v w || member v ws

-- The pair that a call names.
abbrev pub hit : ℕ → List ℕ → List ℕ → ℕ → List ℕ → List ℕ → Bool
hit d k v e k' v' = e == d && equals k' k && equals v' v

abbrev pub Held : Type 0 → Type 0
Held T = T → ℕ → List ℕ → List ℕ → Bool

-- The values of each key, in the order of the cursors, and where a cursor stands: in a database, within a
-- key, with some values after its own.
pub record Dupsort {T C : Type 0} (L : Lmdb T C) : Type 1 where
  pub dups : T → ℕ → List ℕ → List (List ℕ)
  pub At : C → ℕ → List ℕ → List (List ℕ) → T → Type 0
  pub begin_same : (s t : T) → L.txn_begin s ≡ some t → s ≡ t
  -- A commit that fails leaves the environment as it is.
  pub commit_one :
      (t s u : T) (code : Code)
      → L.txn_commit t s ≡ (code, u)
      → ((code ≡ success) × (u ≡ t)) ⊎ ((code ≢ success) × (u ≡ s))
  pub put_held :
      (d : ℕ) (k v : List ℕ) (t u : T)
      → L.put d k v t ≡ (success, u)
      → (e : ℕ) (k' v' : List ℕ)
      → member v' (dups u e k') ≡ (hit d k v e k' v' || member v' (dups t e k'))
  -- MDB_NOTFOUND says that the pair is not there.
  pub del_held :
      (d : ℕ) (k v : List ℕ) (t u : T) (code : Code)
      → code ≢ failed
      → L.del d k (some v) t ≡ (code, u)
      → (e : ℕ) (k' v' : List ℕ)
      → member v' (dups u e k') ≡ (not (hit d k v e k' v') && member v' (dups t e k'))
  pub del_all :
      (d : ℕ) (k : List ℕ) (t u : T) (code : Code)
      → code ≢ failed
      → L.del d k none t ≡ (code, u)
      → (e : ℕ) (k' v' : List ℕ)
      → member v' (dups u e k') ≡ (not (e == d && equals k' k) && member v' (dups t e k'))
  -- MDB_SET_KEY finds the first value of the key.
  pub open_set :
      (d : ℕ) (k : List ℕ) (t : T) (c : C)
      → L.cursor_open d t ≡ some c
      → (L.set_key c k t ≡ fetch_failed)
        ⊎ ((L.set_key c k t ≡ no_more) × (dups t d k ≡ []))
        ⊎ ((c' : C) × (v : List ℕ) × (rest : List (List ℕ)) × (L.set_key c k t ≡ fetched c' k v)
            × (dups t d k ≡ v ∷ rest)
            × At c' d k rest t)
  -- MDB_NEXT_DUP gives the values that are left one by one.
  pub next_at :
      (c : C) (d : ℕ) (k : List ℕ) (rest : List (List ℕ)) (t : T)
      → At c d k rest t
      → (L.next_dup c t ≡ fetch_failed)
        ⊎ ((L.next_dup c t ≡ no_more) × (rest ≡ []))
        ⊎ ((c' : C) × (v : List ℕ) × (more : List (List ℕ)) × (L.next_dup c t ≡ fetched c' k v)
            × (rest ≡ v ∷ more)
            × At c' d k more t)
  -- A deletion in another database does not move the cursor.
  pub del_at :
      (c : C) (d e : ℕ) (k key value : List ℕ) (rest : List (List ℕ)) (t u : T) (code : Code)
      → e ≢ d
      → At c d k rest t
      → L.del e key (some value) t ≡ (code, u)
      → At c d k rest u
