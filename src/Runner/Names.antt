-- ===== src/Runner/Names.antt =====
-- The table of the jobs: what is found after an entry is removed or made, and after `run` has looked at
-- the entries.
use libglim.Base.{
  ℕ, ◌≡◌, refl, ◌∙◌, inl, inr, Bool, true, false, Option, none, some, List, [], ◌∷◌, if◌then◌else◌,
  Bool-cases,
}
use libglim.Compare.{equals}
use libglim.Compare.Order.{equals_iff}
use libglim.Runner.{Timespec, Floats, JobInfo, Jobs, lookup, erase, update, should_run, collect}

equals_sym : (xs ys : List ℕ) → equals xs ys ≡ equals ys xs
equals_sym xs ys = elim (Bool-cases (equals xs ys)) [
  | inl e ↦ let q = (equals_iff xs ys).0 e in rw q refl
  | inr e ↦ elim (Bool-cases (equals ys xs)) [
    | inl e' ↦ let q = (equals_iff ys xs).0 e' in rw q refl
    | inr e' ↦ rw (e, e') refl
  ]
]

module _ {F J : Type 0} where
  pub lookup-erase :
      (name other : List ℕ) (jobs : Jobs F J)
      → lookup other (erase name jobs) ≡ (if equals name other then none else lookup other jobs)
  unfolding lookup erase
  lookup-erase name other [] = elim (Bool-cases (equals name other)) [
    | inl e ↦ rw e refl
    | inr e ↦ rw e refl
  ]
  lookup-erase name other ((key, info) ∷ jobs) = elim (Bool-cases (equals key name)) [
    | inl e ↦
        let q = (equals_iff key name).0 e in
        rw e (
          lookup-erase name other jobs
          ∙ rw q
              (elim (Bool-cases (equals name other)) [ inl e' ↦ rw e' refl | inr e' ↦ rw e' refl ]))
    | inr e ↦ rw e (
        rw (lookup-erase name other jobs) (elim (Bool-cases (equals key other)) [
          | inl e' ↦
              let q = (equals_iff key other).0 e' in
              let apart : equals name other ≡ false = rw (← q) (equals_sym name key ∙ e) in
              rw (e', apart) refl
          | inr e' ↦ rw e' refl
        ]))
  ]

  -- The entry of a name, a new one if there is none.
  abbrev pub entry_of : JobInfo F J → Option (JobInfo F J) → JobInfo F J
  entry_of first none = first
  entry_of first (some info) = info

  pub lookup-update :
      (first : JobInfo F J) (name other : List ℕ) (f : JobInfo F J → JobInfo F J) (jobs : Jobs F J)
      → lookup other (update first name f jobs) ≡ (
          if equals name other
          then some (f (entry_of first (lookup name jobs)))
          else lookup other jobs)
  unfolding lookup update
  lookup-update first name other f [] = refl
  lookup-update first name other f ((key, info) ∷ jobs) = elim (Bool-cases (equals key name)) [
    | inl e ↦ let q = (equals_iff key name).0 e in rw e (rw q (split (equals name other)))
    | inr e ↦ rw e (
        rw (lookup-update first name other f jobs) (elim (Bool-cases (equals key other)) [
          | inl e' ↦
              let q = (equals_iff key other).0 e' in
              let apart : equals name other ≡ false = rw (← q) (equals_sym name key ∙ e) in
              rw (e', apart) refl
          | inr e' ↦ rw e' refl
        ]))
  ]
    where
      split :
          (b : Bool)
          → (if b then some (f info) else lookup other jobs)
            ≡ (if b then some (f info) else if b then some info else lookup other jobs)
      split true = refl
      split false = refl

  -- No name stands twice in the table.
  abbrev pub Unique : Jobs F J → Type 0
  Unique [] = Unit
  Unique ((key, info) ∷ jobs) = (lookup key jobs ≡ none) × Unique jobs

module _ {F : Type 0} (fl : Floats F) {J : Type 0} where
  abbrev pub collected : Timespec → Option (JobInfo F J) → Option (JobInfo F J)
  collected ct none = none
  collected ct (some info) = some (should_run fl ct info).1

  pub lookup-collect :
      (ct : Timespec) (name : List ℕ) (jobs : Jobs F J)
      → lookup name (collect fl ct jobs).0 ≡ collected ct (lookup name jobs)
  unfolding lookup collect
  lookup-collect ct name [] = refl
  lookup-collect ct name ((key, info) ∷ jobs) = elim (Bool-cases (equals key name)) [
    | inl e ↦ rw e refl
    | inr e ↦ rw e (lookup-collect ct name jobs)
  ]
