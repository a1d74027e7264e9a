-- ===== src/Sqlite/Fetch.antt =====
-- A loop over the rows of a query.
use libglim.Base.{
  ℕ, zero, suc, ◌+◌, ◌≤◌, ◌≡◌, refl, ap, ◌∙◌, Bool, true, false, Option, none, some, arith,
}
use libglim.Sqlite.{row, done, Engine, Query, Outcome, returned, thrown, step}

module _ {S : Type 0} (E : Engine S) where
  -- `n` rows, then the end.
  pub data Rows (t : S) : ℕ → S → Type 0 where
    no_more : (s : S) → E.sqlite_step s ≡ (done, t) → Rows t 0 s
    one_more : (n : ℕ) (s u : S) → E.sqlite_step s ≡ (row, u) → Rows t n u → Rows t (suc n) s

  abbrev over : Query S → S → Query S
  over q t = record q { engine = t; changes = some (E.sqlite_changes t) }

  abbrev at : Query S → S → Query S
  at q s = record q { engine = s }

  -- `while (query.next()) ++count;` with at most `rounds` rounds, and the query after it; none is an
  -- exception or a loop that is not over.
  unfoldable pub fetch : ℕ → ℕ → Query S → Option (ℕ × Query S)
  fetch zero count q = none
  fetch (suc rounds) count q = go (step E q) (λ r. fetch rounds (count + 1) r)
    where
      go : Outcome S Bool → (Query S → Option (ℕ × Query S)) → Option (ℕ × Query S)
      go (returned true r) more = more r
      go (returned false r) more = some (count, r)
      go (thrown r) more = none

  step-row :
      (q : Query S) (u : S)
      → q.changes ≡ none
      → E.sqlite_step q.engine ≡ (row, u)
      → step E q ≡ returned true (at q u)
  unfolding step
  step-row q u fresh e = rw fresh (rw e refl)

  step-done :
      (q : Query S) (t : S)
      → q.changes ≡ none
      → E.sqlite_step q.engine ≡ (done, t)
      → step E q ≡ returned false (record q { engine = t; changes = some (E.sqlite_changes t) })
  unfolding step
  step-done q t fresh e = rw fresh (rw e refl)

  fetch_lem :
      (rounds n count : ℕ) (q : Query S) (s t : S)
      → q.changes ≡ none
      → q.engine ≡ s
      → Rows t n s
      → n + 1 ≤ rounds
      → fetch rounds count q
        ≡ some (count + n, record q { engine = t; changes = some (E.sqlite_changes t) })
  unfolding fetch
  fetch_lem zero n count q s t fresh at_s r enough = absurd (omega arith)
  fetch_lem (suc rounds) _ count q s t fresh at_s (no_more _ e) enough =
      let same : count ≡ count + 0 = omega arith in
      rw (step-done q t fresh (ap E.sqlite_step at_s ∙ e)) (ap (λ (k : ℕ). some (k, over q t)) same)
  fetch_lem (suc rounds) _ count q s t fresh at_s (one_more n _ u e r) enough =
      let same : count + 1 + n ≡ count + suc n = omega arith in
      rw (step-row q u fresh (ap E.sqlite_step at_s ∙ e)) (
        fetch_lem rounds n (count + 1) (at q u) u t fresh refl r (omega arith)
        ∙ ap (λ (k : ℕ). some (k, over q t)) same)

  -- A loop over a fresh query sees each row of the statement, and keeps the number of changes; a step after
  -- that leaves the statement alone and returns false.
  pub fetch-Rows :
      (rounds n : ℕ) (q : Query S) (t : S)
      → q.changes ≡ none
      → Rows t n q.engine
      → n + 1 ≤ rounds
      → let after = record q { engine = t; changes = some (E.sqlite_changes t) } in
        (fetch rounds 0 q ≡ some (n, after))
        × (step E after ≡ returned false (record q { engine = t; changes = some 0 }))
  unfolding step
  fetch-Rows rounds n q t fresh r enough =
      let same : 0 + n ≡ n = omega arith in
      (
        fetch_lem rounds n 0 q q.engine t fresh refl r enough
            ∙ ap (λ (k : ℕ). some (k, over q t)) same,
        refl,
      )
