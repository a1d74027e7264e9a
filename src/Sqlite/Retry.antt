-- ===== src/Sqlite/Retry.antt =====
-- How SqliteParQuery repeats a step.
use libglim.Base.{
  ℕ, zero, suc, ◌+◌, ◌≤◌, ◌≡◌, ◌≢◌, refl, sym, ap, ◌∙◌, Bool, true, false, none, some, arith,
}
use libglim.Sqlite.{
  Code, row, done, busy, schema, failed, Engine, Query, Outcome, returned, thrown, par_round,
  par_step, wait_busy, step,
}

module _ {S : Type 0} (E : Engine S) where
  -- After `n` rounds of SQLITE_SCHEMA the step of the engine gives `code`.
  pub data Reprepares (code : Code) (t : S) : ℕ → S → Type 0 where
    here : (s : S) → E.sqlite_step s ≡ (code, t) → Reprepares code t 0 s
    again :
        (n : ℕ) (s u v : S)
        → E.sqlite_step s ≡ (schema, u)
        → E.prepare_again u ≡ some v
        → Reprepares code t n v
        → Reprepares code t (suc n) s

  abbrev at : Query S → S → Query S
  at q s = record q { engine = s }

  -- What SqliteParQuery::step makes of a code that ends it.
  abbrev pub ending : ℕ → ℕ → Query S → Code → S → Outcome S Bool
  ending repeat wait q row t = returned true (at q t)
  ending repeat wait q done t =
      returned false (record q { engine = t; changes = some (E.sqlite_changes t) })
  ending repeat wait q busy t = thrown (at q (wait_busy E (suc repeat) wait (busy, t)).1)
  ending repeat wait q schema t = thrown (at q t)
  ending repeat wait q failed t = thrown (at q t)

  par_round-ending :
      (rounds repeat wait : ℕ) (q : Query S) (code : Code) (t : S)
      → code ≢ schema
      → E.sqlite_step q.engine ≡ (code, t)
      → par_round E (suc rounds) repeat wait q ≡ some (ending repeat wait q code t)
  unfolding par_round
  par_round-ending rounds repeat wait q row t other e = rw e refl
  par_round-ending rounds repeat wait q done t other e = rw e refl
  par_round-ending rounds repeat wait q busy t other e = rw e refl
  par_round-ending rounds repeat wait q schema t other e = absurd (other refl)
  par_round-ending rounds repeat wait q failed t other e = rw e refl

  par_round-again :
      (rounds repeat wait : ℕ) (q : Query S) (u v : S)
      → E.sqlite_step q.engine ≡ (schema, u)
      → E.prepare_again u ≡ some v
      → par_round E (suc rounds) repeat wait q ≡ par_round E rounds repeat wait (at q v)
  unfolding par_round
  par_round-again rounds repeat wait q u v e f = rw e (rw f refl)

  par_round-Reprepares :
      (rounds repeat wait n : ℕ) (q : Query S) (code : Code) (s t : S)
      → q.engine ≡ s
      → Reprepares code t n s
      → code ≢ schema
      → suc n ≤ rounds
      → par_round E rounds repeat wait q ≡ some (ending repeat wait q code t)
  par_round-Reprepares zero repeat wait n q code s t at_s r other enough = absurd (omega arith)
  par_round-Reprepares (suc rounds) repeat wait _ q code s t at_s (here _ e) other enough =
      par_round-ending rounds repeat wait q code t other (ap E.sqlite_step at_s ∙ e)
  par_round-Reprepares (suc rounds) repeat wait _ q code s t at_s (again n _ u v e f r) other
        enough =
      par_round-again rounds repeat wait q u v (ap E.sqlite_step at_s ∙ e) f
      ∙ par_round-Reprepares rounds repeat wait n (at q v) code v t refl r other (omega arith)

  par_step-fresh :
      (rounds repeat wait : ℕ) (q : Query S)
      → q.changes ≡ none
      → par_step E rounds repeat wait q ≡ par_round E rounds repeat wait q
  unfolding par_step
  par_step-fresh rounds repeat wait q fresh = rw fresh refl

  wait_busy-row : (left wait : ℕ) (t : S) → wait_busy E left wait (row, t) ≡ (row, t)
  unfolding wait_busy
  wait_busy-row zero wait t = refl
  wait_busy-row (suc left) wait t = refl

  wait_busy-fetched :
      (left wait : ℕ) (s t : S)
      → E.sqlite_step (E.sqlite_sleep wait s) ≡ (row, t)
      → wait_busy E (suc left) wait (busy, s) ≡ (row, t)
  unfolding wait_busy
  wait_busy-fetched left wait s t f = ap (wait_busy E left wait) f ∙ wait_busy-row left wait t

  par_step-Reprepares :
      (rounds repeat wait n : ℕ) (q : Query S) (code : Code) (t : S)
      → q.changes ≡ none
      → Reprepares code t n q.engine
      → code ≢ schema
      → n + 1 ≤ rounds
      → par_step E rounds repeat wait q ≡ some (ending repeat wait q code t)
  par_step-Reprepares rounds repeat wait n q code t fresh r other enough =
      par_step-fresh rounds repeat wait q fresh
      ∙ par_round-Reprepares rounds repeat wait n q code q.engine t refl r other (omega arith)

  -- After `n` rounds of SQLITE_SCHEMA the statement was prepared again, and is `w`.
  pub data Prepared (w : S) : ℕ → S → Type 0 where
    at_last : Prepared w 0 w
    once_more :
        (n : ℕ) (s u v : S)
        → E.sqlite_step s ≡ (schema, u)
        → E.prepare_again u ≡ some v
        → Prepared w n v
        → Prepared w (suc n) s

  Prepared-Reprepares :
      (w : S) (n : ℕ) (s : S) (code : Code) (t : S)
      → Prepared w n s
      → E.sqlite_step w ≡ (code, t)
      → Reprepares code t n s
  Prepared-Reprepares w _ _ code t at_last e = here w e
  Prepared-Reprepares w _ s code t (once_more n _ u v f g r) e =
      again n s u v f g (Prepared-Reprepares w n v code t r e)

  step-ending :
      (repeat wait : ℕ) (q : Query S) (w : S) (code : Code) (t : S)
      → q.changes ≡ none
      → E.sqlite_step w ≡ (code, t)
      → code ≢ schema
      → code ≢ busy
      → step E (at q w) ≡ ending repeat wait q code t
  unfolding step
  step-ending repeat wait q w row t fresh e a b = rw (fresh, e) refl
  step-ending repeat wait q w done t fresh e a b = rw (fresh, e) refl
  step-ending repeat wait q w failed t fresh e a b = rw (fresh, e) refl
  step-ending repeat wait q w schema t fresh e a b = absurd (a refl)
  step-ending repeat wait q w busy t fresh e a b = absurd (b refl)

  -- SqliteParQuery::step prepares the statement again after each SQLITE_SCHEMA, and then does what
  -- SqliteQuery::step does with the statement that it has prepared last, if that one gives neither
  -- SQLITE_SCHEMA nor SQLITE_BUSY; the query has not ended before, and `n + 1` rounds are enough for `n` times
  -- SQLITE_SCHEMA.
  pub par_step-step :
      (rounds repeat wait n : ℕ) (q : Query S) (w : S)
      → q.changes ≡ none
      → Prepared w n q.engine
      → (E.sqlite_step w).0 ≢ schema
      → (E.sqlite_step w).0 ≢ busy
      → n + 1 ≤ rounds
      → par_step E rounds repeat wait q ≡ some (step E (record q { engine = w }))
  par_step-step rounds repeat wait n q w fresh r a b enough =
      let (code, t) = E.sqlite_step w in
      par_step-Reprepares rounds repeat wait n q code t fresh
        (Prepared-Reprepares w n q.engine code t r refl) a enough
      ∙ ap some (sym (step-ending repeat wait q w code t fresh refl a b))

  -- After SQLITE_BUSY the step throws even if the repeated step fetched a row.
  pub par_step-busy :
      (rounds repeat wait : ℕ) (q : Query S) (s t : S)
      → q.changes ≡ none
      → E.sqlite_step q.engine ≡ (busy, s)
      → E.sqlite_step (E.sqlite_sleep wait s) ≡ (row, t)
      → par_step E (suc rounds) repeat wait q ≡ some (thrown (record q { engine = t }))
  par_step-busy rounds repeat wait q s t fresh e f =
      par_step-fresh (suc rounds) repeat wait q fresh
      ∙ (par_round-ending rounds repeat wait q busy s apart e
          ∙ ap (λ r. some (thrown (at q r.1))) (wait_busy-fetched repeat wait s t f))
    where
      apart : busy ≢ schema
      apart e = cc
