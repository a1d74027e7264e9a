-- ===== src/Ldb/Ranges.antt =====
-- The entries that a loop over a range of keys visits.
use libglim.Base.{
  ℕ, zero, suc, ◌<◌, ◌≡◌, refl, sym, ap, ◌∙◌, Bool, true, false, not, Option, none, some, List, [],
  ◌∷◌, if◌then◌else◌, arith, All, length, Bool-cases, inl, inr, ◌&&◌,
}
use libglim.Compare.{equals}
use libglim.Compare.Order.{equals_iff, equals_refl}
use libglim.Ldb.{
  below, LevelIterator, Entry, synced, increment, seek, iterator_end, key_view, equal, range,
}
use libglim.Ldb.Prefix.{Sorted, keys_from, Snapshot, below_trans, All-above, length-keys_from}

-- The keys from `from` on and below `till`.
unfoldable pub between : List ℕ → List ℕ → List (List ℕ) → List (List ℕ)
between from till [] = []
between from till (k ∷ ks) =
    let rest = between from till ks in if not (below k from) && below k till then k ∷ rest else rest

-- The first keys, as long as they are below `till`.
before : List ℕ → List (List ℕ) → List (List ℕ)
before till [] = []
before till (k ∷ ks) = let rest = before till ks in if below k till then k ∷ rest else []

-- The loop over a range, in at most `rounds` rounds: the keys it sees; none is a loop that is not over.
unfoldable pub visit_range :
    {C : Type 0} → LevelIterator C → ℕ → Entry C → Entry C → Option (List (List ℕ))
visit_range L zero it last = none
visit_range L (suc rounds) it last =
    let more = visit_range L rounds (increment L it) last in
    if equal L it last
    then some []
    else elim more [ none ↦ none | some keys ↦ some (key_view L it ∷ keys) ]

below_before :
    (from till k : List ℕ) → below till from ≡ false → below k from ≡ true → below k till ≡ true
below_before from till k h low = elim (Bool-cases (below k till)) [
  | inl e ↦ e
  | inr e ↦ absurd (apart (below_trans from till k h e) low)
]
  where
    apart : {b : Bool} → b ≡ false → b ≡ true → ⊥
    apart e f = cc

keys_from-keys_from :
    (from till : List ℕ) (ks : List (List ℕ))
    → below till from ≡ false
    → keys_from till (keys_from from ks) ≡ keys_from till ks
unfolding keys_from
keys_from-keys_from from till [] h = refl
keys_from-keys_from from till (k ∷ ks) h = elim (Bool-cases (below k from)) [
  | inl low ↦ rw (low, below_before from till k h low) (keys_from-keys_from from till ks h)
  | inr high ↦ rw high refl
]

none_between :
    (from till k : List ℕ) (ks : List (List ℕ))
    → below k till ≡ false
    → All (λ y. below y k ≡ false) ks
    → between from till ks ≡ []
unfolding between
none_between from till k [] h all = refl
none_between from till k (y ∷ ks) h (first, all) =
    rw (below_trans till k y h first) (elim (Bool-cases (below y from)) [
      | inl e ↦ rw e (none_between from till k ks h all)
      | inr e ↦ rw e (none_between from till k ks h all)
    ])

before-Sorted :
    (from till : List ℕ) (ks : List (List ℕ))
    → Sorted ks
    → All (λ y. below y from ≡ false) ks
    → before till ks ≡ between from till ks
unfolding before between
before-Sorted from till [] s all = refl
before-Sorted from till (k ∷ ks) (above, s) (first, all) = elim (Bool-cases (below k till)) [
  | inl e ↦ rw (e, first) (ap (λ l. k ∷ l) (before-Sorted from till ks s all))
  | inr e ↦ rw (e, first) (sym (none_between from till k ks e above))
]

before-keys_from :
    (from till : List ℕ) (ks : List (List ℕ))
    → Sorted ks
    → before till (keys_from from ks) ≡ between from till ks
unfolding keys_from between
before-keys_from from till [] s = unfold before in refl
before-keys_from from till (k ∷ ks) (above, s) = elim (Bool-cases (below k from)) [
  | inl low ↦ rw low (before-keys_from from till ks s)
  | inr high ↦ rw high (
      before-Sorted from till (k ∷ ks) (above, s) (high, All-above from k ks high above)
      ∙ rw high refl)
]

keys_from-Sorted : (p : List ℕ) (ks : List (List ℕ)) → Sorted ks → Sorted (keys_from p ks)
unfolding keys_from
keys_from-Sorted p [] s = tt
keys_from-Sorted p (k ∷ ks) (above, s) = elim (Bool-cases (below k p)) [
  | inl low ↦ rw low (keys_from-Sorted p ks s)
  | inr high ↦ rw high (above, s)
]

-- Whether iterators at these keys are equal.
same_head : List (List ℕ) → List (List ℕ) → Bool
same_head [] [] = true
same_head [] (t ∷ ts) = false
same_head (k ∷ ks) [] = false
same_head (k ∷ ks) (t ∷ ts) = equals k t

-- A key below `till` is not the first one from `till` on.
same_head-keys_from :
    (till k : List ℕ) (ks more : List (List ℕ))
    → below k till ≡ true
    → same_head (k ∷ more) (keys_from till ks) ≡ false
unfolding same_head keys_from
same_head-keys_from till k [] more low = refl
same_head-keys_from till k (y ∷ ks) more low = elim (Bool-cases (below y till)) [
  | inl e ↦ rw e (same_head-keys_from till k ks more low)
  | inr e ↦ rw e (elim (Bool-cases (equals k y)) [
    | inr apart ↦ apart
    | inl same ↦ absurd (differ (ap (λ x. below x till) ((equals_iff k y).0 same)) e)
  ])
]
  where
    differ : below k till ≡ below y till → below y till ≡ false → ⊥
    differ f e = cc

module _ {C : Type 0} (L : LevelIterator C) (keys : List (List ℕ)) (S : Snapshot L keys) where
  -- An iterator that was moved, before one that stands at `rest`.
  equal_lem :
      (ks ts : List (List ℕ)) (c d : C)
      → S.rest c ≡ ks
      → S.rest d ≡ ts
      → equal L (synced L c) (synced L d) ≡ same_head ks ts
  unfolding equal synced same_head
  equal_lem [] [] c d e f = rw (S.valid_law c, S.valid_law d, e, f) refl
  equal_lem [] (t ∷ ts) c d e f = rw (S.valid_law c, S.valid_law d, e, f) refl
  equal_lem (k ∷ ks) [] c d e f = rw (S.valid_law c, S.valid_law d, e, f) refl
  equal_lem (k ∷ ks) (t ∷ ts) c d e f =
      rw (S.valid_law c, S.valid_law d, e, f, S.key_law c k ks e, S.key_law d t ts f) refl

  increment_lem :
      (c : C) (k : List ℕ) (ks : List (List ℕ))
      → S.rest c ≡ k ∷ ks
      → increment L (synced L c) ≡ synced L (L.next_entry c)
  unfolding increment synced
  increment_lem c k ks e = rw (S.valid_law c, e) refl

  key_view_lem :
      (c : C) (k : List ℕ) (ks : List (List ℕ)) → S.rest c ≡ k ∷ ks → key_view L (synced L c) ≡ k
  unfolding key_view synced
  key_view_lem c k ks e = rw (S.valid_law c, e) (S.key_law c k ks e)

  visit-before :
      (rounds : ℕ) (till : List ℕ) (ks : List (List ℕ)) (c d : C)
      → S.rest c ≡ ks
      → Sorted ks
      → S.rest d ≡ keys_from till ks
      → length ks < rounds
      → visit_range L rounds (synced L c) (synced L d) ≡ some (before till ks)
  unfolding visit_range before keys_from same_head
  visit-before zero till ks c d e s f h = absurd (omega arith)
  visit-before (suc rounds) till [] c d e s f h = rw (equal_lem [] [] c d e f) refl
  visit-before (suc rounds) till (k ∷ ks) c d e (above, s) f h = elim (Bool-cases (below k till)) [
    | inl low ↦
        let skipped : S.rest d ≡ keys_from till ks = f ∙ rw low refl in
        let apart =
          equal_lem (k ∷ ks) (keys_from till ks) c d e skipped
          ∙ same_head-keys_from till k ks ks low in
        let later =
          visit-before rounds till ks (L.next_entry c) d (S.next_law c k ks e) s skipped
            (omega (arith, h)) in
        rw (apart, increment_lem c k ks e, later, key_view_lem c k ks e, low) refl
    | inr high ↦
        let same : S.rest d ≡ k ∷ ks = f ∙ rw high refl in
        rw (equal_lem (k ∷ ks) (k ∷ ks) c d e same ∙ equals_refl k, high) refl
  ]

  -- A loop over a range whose ends are in order is over, and visits the keys from the first end on and
  -- below the second one, all of them and in their order, if leveldb's iterator keeps its promises on a
  -- snapshot with sorted keys.
  pub visit_range-between :
      (rounds : ℕ) (from till : List ℕ) (fit tit : C)
      → Sorted keys
      → below till from ≡ false
      → length keys < rounds
      → visit_range L rounds (range L from till fit tit).0 (range L from till fit tit).1
        ≡ some (between from till keys)
  unfolding range seek iterator_end
  visit_range-between rounds from till fit tit s ordered enough =
      visit-before rounds till (keys_from from keys) (L.seek_key from fit) (L.seek_key till tit)
        (S.seek_law from fit) (keys_from-Sorted from keys s)
        (S.seek_law till tit ∙ sym (keys_from-keys_from from till keys ordered))
        (omega (arith, length-keys_from from keys, enough))
      ∙ ap some (before-keys_from from till keys s)
