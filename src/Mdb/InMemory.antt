-- ===== src/Mdb/InMemory.antt =====
-- A store in memory that behaves as LMDB is assumed to: for each database and key the list of values.
use libglim.Base.{
  ℕ, ◌≡◌, ◌≢◌, refl, ap, ◌∙◌, inl, inr, Bool, true, false, not, ◌&&◌, ◌||◌, Option, none, some,
  List, [], ◌∷◌, ◌==◌, if◌then◌else◌, Bool-cases, arith, sym, ◌⊎◌, subst,
}
use libglim.Compare.{equals}
use libglim.Compare.Order.{equals_iff}
use libglim.Mdb.{Code, success, missing, failed, Fetch, fetched, no_more, fetch_failed, Lmdb}
use libglim.Mdb.Laws.{member, hit, Dupsort}
use libglim.Mdb.Visit.{Working}

abbrev pub Tables : Type 0
Tables = ℕ → List ℕ → List (List ℕ)

-- A database, a key and the values that are left.
abbrev pub Cursor : Type 0
Cursor = ℕ × List ℕ × List (List ℕ)

unfoldable pub change : ℕ → List ℕ → (List (List ℕ) → List (List ℕ)) → Tables → Tables
change d k f t e k' = if e == d && equals k' k then f (t e k') else t e k'

unfoldable pub without : List ℕ → List (List ℕ) → List (List ℕ)
without v [] = []
without v (w ∷ ws) = let rest = without v ws in if equals w v then rest else w ∷ rest

abbrev pub fetch_from : ℕ → List ℕ → List (List ℕ) → Fetch Cursor
fetch_from d k [] = no_more
fetch_from d k (v ∷ rest) = fetched (d, k, rest) k v

abbrev pub head_of : List (List ℕ) → Code × List ℕ
head_of [] = (missing, [])
head_of (v ∷ rest) = (success, v)

abbrev pub code_of : Bool → Code
code_of true = success
code_of false = missing

abbrev pub some_left : List (List ℕ) → Bool
some_left [] = false
some_left (v ∷ rest) = true

abbrev pub deleted : ℕ → List ℕ → Option (List ℕ) → Tables → Code × Tables
deleted d k (some v) t = (code_of (member v (t d k)), change d k (without v) t)
deleted d k none t = (code_of (some_left (t d k)), change d k (λ _. []) t)

abbrev pub in_memory : Lmdb Tables Cursor
in_memory = record {
  txn_begin = some;
  txn_commit = λ t s. (success, t);
  put = λ d k v t. (success, change d k (λ vs. v ∷ vs) t);
  get = λ d k t. head_of (t d k);
  del = deleted;
  cursor_open = λ d t. some (d, [], []);
  set_key = λ c k t. fetch_from c.0 k (t c.0 k);
  first_entry = λ c t. fetch_failed;
  last_entry = λ c t. fetch_failed;
  next_dup = λ c t. fetch_from c.0 c.1 c.2;
  prev_dup = λ c t. fetch_failed;
  next_entry = λ c t. fetch_failed;
  prev_entry = λ c t. fetch_failed;
}

member-without :
    (v v' : List ℕ) (ws : List (List ℕ))
    → member v' (without v ws) ≡ (not (equals v' v) && member v' ws)
unfolding member without
member-without v v' [] = ground arith
member-without v v' (w ∷ ws) = elim (Bool-cases (equals w v)) [
  | inl this ↦
      let q : w ≡ v = (equals_iff w v).0 this in
      rw this (rw (member-without v v' ws) (rw q (ground arith)))
  | inr other ↦ rw other (
      rw (member-without v v' ws) (elim (Bool-cases (equals v' v)) [
        | inl e ↦
            let q : v' ≡ v = (equals_iff v' v).0 e in
            elim (Bool-cases (equals v' w)) [
              | inl e' ↦
                  let q' : w ≡ v = sym ((equals_iff v' w).0 e') ∙ q in
                  let yes_it_is : equals w v ≡ true = (equals_iff w v).1 q' in ground arith
              | inr e' ↦ ground arith
            ]
        | inr e ↦ ground arith
      ]))
]

member-change :
    (d : ℕ) (k : List ℕ) (f : List (List ℕ) → List (List ℕ)) (t : Tables) (e : ℕ) (k' v' : List ℕ)
    → member v' (change d k f t e k')
      ≡ (if e == d && equals k' k then member v' (f (t e k')) else member v' (t e k'))
unfolding change
member-change d k f t e k' v' = elim (Bool-cases (e == d && equals k' k)) [
  | inl here ↦ rw here refl
  | inr there ↦ rw there refl
]

open_cases :
    (d : ℕ) (k : List ℕ) (vs : List (List ℕ))
    → (fetch_from d k vs ≡ fetch_failed)
      ⊎ ((fetch_from d k vs ≡ no_more) × (vs ≡ []))
      ⊎ ((c : Cursor) × (v : List ℕ) × (rest : List (List ℕ)) × (fetch_from d k vs ≡ fetched c k v)
          × (vs ≡ v ∷ rest)
          × (c ≡ (d, k, rest)))
open_cases d k [] = inr (inl (refl, refl))
open_cases d k (v ∷ rest) = inr (inr ((d, k, rest), v, rest, refl, refl, refl))

pub begin_same : (s t : Tables) → in_memory.txn_begin s ≡ some t → s ≡ t
begin_same s t e = cc

pub commit_one :
    (t s u : Tables) (code : Code)
    → in_memory.txn_commit t s ≡ (code, u)
    → ((code ≡ success) × (u ≡ t)) ⊎ ((code ≢ success) × (u ≡ s))
commit_one t s u code e =
    inl (sym (ap (λ (p : Code × Tables). p.0) e), sym (ap (λ (p : Code × Tables). p.1) e))

pub put_held :
    (d : ℕ) (k v : List ℕ) (t u : Tables)
    → in_memory.put d k v t ≡ (success, u)
    → (e : ℕ) (k' v' : List ℕ) → member v' (u e k') ≡ (hit d k v e k' v' || member v' (t e k'))
unfolding member
put_held d k v t u e d' k' v' =
    subst (λ (w : Tables). member v' (w d' k') ≡ (hit d k v d' k' v' || member v' (t d' k')))
      (ap (λ (p : Code × Tables). p.1) e)
      (rw (member-change d k (λ vs. v ∷ vs) t d' k' v') (ground arith))

pub del_held :
    (d : ℕ) (k v : List ℕ) (t u : Tables) (code : Code)
    → code ≢ failed
    → in_memory.del d k (some v) t ≡ (code, u)
    → (e : ℕ) (k' v' : List ℕ)
    → member v' (u e k') ≡ (not (hit d k v e k' v') && member v' (t e k'))
unfolding member
del_held d k v t u code ok e d' k' v' =
    subst (λ (w : Tables). member v' (w d' k') ≡ (not (hit d k v d' k' v') && member v' (t d' k')))
      (ap (λ (p : Code × Tables). p.1) e)
      (rw (member-change d k (without v) t d' k' v')
        (ground (arith, member-without v v' (t d' k'))))

pub del_all :
    (d : ℕ) (k : List ℕ) (t u : Tables) (code : Code)
    → code ≢ failed
    → in_memory.del d k none t ≡ (code, u)
    → (e : ℕ) (k' v' : List ℕ)
    → member v' (u e k') ≡ (not (e == d && equals k' k) && member v' (t e k'))
unfolding member
del_all d k t u code ok e d' k' v' =
    subst
      (λ (w : Tables). member v' (w d' k') ≡ (not (d' == d && equals k' k) && member v' (t d' k')))
      (ap (λ (p : Code × Tables). p.1) e)
      (rw (member-change d k (λ _. []) t d' k' v') (ground arith))

pub open_set :
    (d : ℕ) (k : List ℕ) (t : Tables) (c : Cursor)
    → in_memory.cursor_open d t ≡ some c
    → (in_memory.set_key c k t ≡ fetch_failed)
      ⊎ ((in_memory.set_key c k t ≡ no_more) × (t d k ≡ []))
      ⊎ ((c' : Cursor) × (v : List ℕ) × (rest : List (List ℕ)) × (in_memory.set_key c k t
            ≡ fetched c' k v)
          × (t d k ≡ v ∷ rest)
          × (c' ≡ (d, k, rest)))
open_set d k t c e =
    let q : d ≡ c.0 = ap (λ (o : Option Cursor). elim o [ none ↦ d | some c' ↦ c'.0 ]) e in
    rw (← q) (open_cases d k (t d k))

pub next_at :
    (c : Cursor) (d : ℕ) (k : List ℕ) (rest : List (List ℕ)) (t : Tables)
    → c ≡ (d, k, rest)
    → (in_memory.next_dup c t ≡ fetch_failed)
      ⊎ ((in_memory.next_dup c t ≡ no_more) × (rest ≡ []))
      ⊎ ((c' : Cursor) × (v : List ℕ) × (more : List (List ℕ)) × (in_memory.next_dup c t
            ≡ fetched c' k v)
          × (rest ≡ v ∷ more)
          × (c' ≡ (d, k, more)))
next_at c d k rest t at = rw at (open_cases d k rest)

unfoldable pub in_memory-Dupsort : Dupsort in_memory
in_memory-Dupsort = record {
  dups = λ t. t;
  At = λ c d k rest t. c ≡ (d, k, rest);
  begin_same = begin_same;
  commit_one = commit_one;
  put_held = put_held;
  del_held = del_held;
  del_all = del_all;
  open_set = open_set;
  next_at = next_at;
  del_at = λ c d e k key value rest t u code other at gone. at;
}

next_ne_failed : (d : ℕ) (k : List ℕ) (vs : List (List ℕ)) → fetch_from d k vs ≢ fetch_failed
next_ne_failed d k [] e = cc
next_ne_failed d k (v ∷ vs) e = cc

pub in_memory-Working : Working in_memory
in_memory-Working = record {
  opens = λ d t e. cc;
  sets = λ c k t. next_ne_failed c.0 k (t c.0 k);
  moves = λ c t. next_ne_failed c.0 c.1 c.2;
}
