-- ===== src/Mdb/Outcomes.antt =====
-- Calls that are over, and what they leave.
use libglim.Base.{◌≡◌, ◌≢◌, refl, sym, subst, inl, inr, Option-cases}
use libglim.Mdb.{
  Code, success, missing, failed, Lmdb, Outcome, returned, thrown, unfinished, InTxn, and_then,
  in_transaction, checked, checked_del, found_or_thrown, committed, ended,
}
use libglim.Mdb.Laws.{Dupsort}

-- The call is over, and what it leaves satisfies P if it did not throw.
abbrev pub Kept : {T A : Type 0} → (T → Type 0) → Outcome T A → Type 0
Kept P (returned a t) = P t
Kept P thrown = Unit
Kept P unfinished = ⊥

pub and_then-Kept :
    {T A B : Type 0} (P Q : T → Type 0) (o : Outcome T A) (f : A → InTxn T B)
    → Kept P o
    → ((a : A) (t : T) → P t → Kept Q (f a t))
    → Kept Q (and_then o f)
and_then-Kept P Q (returned a t) f h g = g a t h
and_then-Kept P Q thrown f h g = tt
and_then-Kept P Q unfinished f h g = h

pub checked-Kept :
    {T : Type 0} (Q : T → Type 0) (p : Code × T)
    → ((u : T) → p ≡ (success, u) → Q u)
    → Kept Q (checked p)
checked-Kept Q (success, u) h = h u refl
checked-Kept Q (missing, u) h = tt
checked-Kept Q (failed, u) h = tt

success-ne-failed : success ≢ failed
success-ne-failed e = cc

missing-ne-failed : missing ≢ failed
missing-ne-failed e = cc

pub checked_del-Kept :
    {T : Type 0} (Q : T → Type 0) (p : Code × T)
    → ((code : Code) (u : T) → code ≢ failed → p ≡ (code, u) → Q u)
    → Kept Q (checked_del p)
checked_del-Kept Q (success, u) h = h success u success-ne-failed refl
checked_del-Kept Q (missing, u) h = h missing u missing-ne-failed refl
checked_del-Kept Q (failed, u) h = tt

pub found_or_thrown-Kept :
    {T : Type 0} (Q : T → Type 0) (p : Code × T)
    → ((code : Code) (u : T) → code ≢ failed → p ≡ (code, u) → Q u)
    → Kept Q (found_or_thrown p)
found_or_thrown-Kept Q (success, u) h = h success u success-ne-failed refl
found_or_thrown-Kept Q (missing, u) h = h missing u missing-ne-failed refl
found_or_thrown-Kept Q (failed, u) h = tt

module _ {T C : Type 0} {L : Lmdb T C} (D : Dupsort L) where
  ended_lem :
      {A : Type 0} (P : T → Type 0) (env t : T) (a : A) (p : Code × T)
      → L.txn_commit t env ≡ p
      → P env
      → P t
      → P (committed L a p).1 × ((committed L a p).0 ≢ unfinished)
  ended_lem P env t a (success, u) e before after = elim (D.commit_one t env u success e) [
    | inl (ok, q) ↦ (subst P (sym q) after, λ w. cc)
    | inr (no_way, q) ↦ absurd (no_way refl)
  ]
  ended_lem P env t a (missing, u) e before after = elim (D.commit_one t env u missing e) [
    | inl (no_way, q) ↦ cc
    | inr (other, q) ↦ (subst P (sym q) before, λ w. cc)
  ]
  ended_lem P env t a (failed, u) e before after = elim (D.commit_one t env u failed e) [
    | inl (no_way, q) ↦ cc
    | inr (other, q) ↦ (subst P (sym q) before, λ w. cc)
  ]

  ended-Kept :
      {A : Type 0} (P : T → Type 0) (env : T) (o : Outcome T A)
      → P env
      → Kept P o
      → P (ended L env o).1 × ((ended L env o).0 ≢ unfinished)
  ended-Kept P env (returned a t) before after =
      ended_lem P env t a (L.txn_commit t env) refl before after
  ended-Kept P env thrown before after = (before, λ w. cc)
  ended-Kept P env unfinished before after = elim after [ ]

  -- A transaction keeps what its body keeps, and is over.
  pub in_transaction-Kept :
      {A : Type 0} (P : T → Type 0) (body : InTxn T A) (env : T)
      → P env
      → Kept P (body env)
      → P (in_transaction L body env).1 × ((in_transaction L body env).0 ≢ unfinished)
  unfolding in_transaction
  in_transaction-Kept P body env before after = elim (Option-cases (L.txn_begin env)) [
    | inl none_left ↦ rw (in_transaction, none_left) (before, λ w. cc)
    | inr (t, e) ↦
        rw (in_transaction, e)
          (ended-Kept P env (body t) before
            (subst (λ s. Kept P (body s)) (D.begin_same env t e) after))
  ]
