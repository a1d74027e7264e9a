-- ===== src/Compare/Search.antt =====
-- `find` gives the first place.
use libglim.Base.{
  ℕ, zero, suc, ◌+◌, ◌-◌, ◌≤◌, ◌<◌, ◌≡◌, ◌≢◌, refl, sym, ap, subst, ◌∙◌, true, false, Option, none,
  some, List, [], ◌∷◌, leb, length, arith, drop, drop_more, length-drop, leb→le, ==_ne, inl, inr,
  Bool-cases,
}
use libglim.Compare.{begins, memmem, find, later, shifted}

-- `memmem` gives the first offset at which `str` lies, or none if it lies nowhere.
abbrev pub FirstAt : List ℕ → List ℕ → Option ℕ → Type 0
FirstAt xs str none = (i : ℕ) → i ≤ length xs → begins (drop i xs) str ≡ false
FirstAt xs str (some i) =
    (i ≤ length xs)
    × (begins (drop i xs) str ≡ true)
    × ((j : ℕ) → j < i → begins (drop j xs) str ≡ false)

FirstAt-later :
    (x : ℕ) (xs str : List ℕ) (r : Option ℕ)
    → begins (x ∷ xs) str ≡ false
    → FirstAt xs str r
    → FirstAt (x ∷ xs) str (later r)
FirstAt-later x xs str none away rest = go
  where
    go : (i : ℕ) → i ≤ suc (length xs) → begins (drop i (x ∷ xs)) str ≡ false
    go zero h = away
    go (suc i) h = rest i (omega arith)
FirstAt-later x xs str (some i) away (inside, there, first) = (omega arith, there, go)
  where
    go : (j : ℕ) → j < suc i → begins (drop j (x ∷ xs)) str ≡ false
    go zero h = away
    go (suc j) h = first j (omega arith)

memmem-FirstAt : (xs str : List ℕ) → FirstAt xs str (memmem xs str)
unfolding memmem begins
memmem-FirstAt [] [] = (omega arith, refl, λ j h. elim h [ ])
memmem-FirstAt [] (y ∷ str) =
    let long : suc (length str) ≢ 0 = (λ e. omega (arith, e)) in
    rw (==_ne (suc (length str)) 0 long) (nowhere y str)
  where
    nowhere : (y : ℕ) (str : List ℕ) (i : ℕ) → i ≤ 0 → begins (drop i []) (y ∷ str) ≡ false
    nowhere y str zero h = unfold begins in refl
    nowhere y str (suc i) h = absurd (omega arith)
memmem-FirstAt (x ∷ xs) str = elim (Bool-cases (begins (x ∷ xs) str)) [
  | inl here ↦ rw here (omega arith, here, λ j h. elim h [ ])
  | inr away ↦ rw away (FirstAt-later x xs str (memmem xs str) away (memmem-FirstAt xs str))
]

-- The first place from `start` on, before the end of the string.
abbrev pub FoundFrom : List ℕ → List ℕ → ℕ → Option ℕ → Type 0
FoundFrom xs str start none = (j : ℕ) → start ≤ j → j < length xs → begins (drop j xs) str ≡ false
FoundFrom xs str start (some i) =
    (start ≤ i)
    × (i ≤ length xs)
    × (begins (drop i xs) str ≡ true)
    × ((j : ℕ) → start ≤ j → j < i → begins (drop j xs) str ≡ false)

FoundFrom-shifted :
    (xs str : List ℕ) (start : ℕ) (r : Option ℕ)
    → start ≤ length xs
    → FirstAt (drop start xs) str r
    → FoundFrom xs str start (shifted start r)
FoundFrom-shifted xs str start none inside all = λ j from below.
    let back : start + (j - start) ≡ j = omega arith in
    subst (λ k. begins k str ≡ false)
      (sym (drop_more xs start (j - start)) ∙ ap (λ k. drop k xs) back)
      (all (j - start) (omega (arith, length-drop start xs)))
FoundFrom-shifted xs str start (some i) inside (within, there, first) = (
  omega arith,
  omega (arith, length-drop start xs),
  subst (λ k. begins k str ≡ true) (sym (drop_more xs start i)) there,
  λ j from below.
      let back : start + (j - start) ≡ j = omega arith in
      subst (λ k. begins k str ≡ false)
        (sym (drop_more xs start (j - start)) ∙ ap (λ k. drop k xs) back)
        (first (j - start) (omega arith)),
)

-- find gives the first place at or after `start` where `str` lies, and -1 if there is none before the end.
pub find-FoundFrom : (xs str : List ℕ) (start : ℕ) → FoundFrom xs str start (find xs str start)
unfolding find
find-FoundFrom xs str start = elim (Bool-cases (leb (length xs) start)) [
  | inl past ↦ rw past (λ j from below. absurd (omega (arith, leb→le (length xs) start past)))
  | inr inside ↦ rw inside (
      FoundFrom-shifted xs str start (memmem (drop start xs) str) (within inside)
        (memmem-FirstAt (drop start xs) str))
]
  where
    within : leb (length xs) start ≡ false → start ≤ length xs
    within h = ground (arith, h)
