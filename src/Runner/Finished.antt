-- ===== src/Runner/Finished.antt =====
-- What checkForFinishedCurlJobs leaves.
use mathlib.Core.List.{reverse, reverse-cons, append_assoc}
use libglim.Base.{
  ℕ, ◌+◌, ◌≡◌, ◌⊎◌, inl, inr, refl, sym, ap, subst, ◌∙◌, Bool, true, false, ◌||◌, Option, none,
  some, List, [], ◌∷◌, ◌++◌, ◌==◌, if◌then◌else◌, arith, Bool-cases, Option-cases,
}
use libglim.Runner.Handlers.{
  Multi, handler_of, without, free_curl, called, throws, logged, finish, check_messages,
  check_finished,
}

abbrev pub among : ℕ → List ℕ → Bool
among h [] = false
among h (c ∷ cs) = c == h || among h cs

module _ {H : Type 0} where
  abbrev call_of : ℕ → Option H → List (ℕ × H)
  call_of curl none = []
  call_of curl (some h) = (curl, h) ∷ []

  -- The calls that these handles lead to, one after the other: those that have a handler, once each.
  unfoldable pub handled : List (ℕ × H) → List ℕ → List (ℕ × H)
  handled table [] = []
  handled table (curl ∷ rest) =
      call_of curl (handler_of curl table) ++ handled (without curl table) rest

  handler_of-without :
      (h curl : ℕ) (table : List (ℕ × H))
      → handler_of h (without curl table) ≡ (if curl == h then none else handler_of h table)
  unfolding handler_of without
  handler_of-without h curl [] = ground arith
  handler_of-without h curl ((key, x) ∷ table) = ground (arith, handler_of-without h curl table)

  reverse-call_of :
      (curl : ℕ) (o : Option H) (calls before : List (ℕ × H))
      → reverse calls ++ (call_of curl o ++ before) ≡ reverse (call_of curl o ++ calls) ++ before
  reverse-call_of curl none calls before = refl
  reverse-call_of curl (some h) calls before =
      rw (reverse-cons (curl, h) calls) (sym (append_assoc (reverse calls) ((curl, h) ∷ []) before))

  -- What the handles `done` explain, whose messages were looked at: each is freed once, in this order, its
  -- handler is called if it has one, and it has none afterwards.
  pub record Explains (m after : Multi H) (done : List ℕ) : Type 0 where
    pub freed : after.freed ≡ reverse done ++ m.freed
    pub calls : after.calls ≡ reverse (handled m.handlers done) ++ m.calls
    pub handlers :
        (h : ℕ)
        → handler_of h after.handlers ≡ (if among h done then none else handler_of h m.handlers)
    pub added : after.added ≡ m.added

  module _ (fails : ℕ → H → Bool) where
    -- The handle has a handler that throws.
    abbrev pub Throws : List (ℕ × H) → ℕ → Type 0
    Throws table curl = (h : H) × (handler_of curl table ≡ some h) × (fails curl h ≡ true)

    -- What one message leaves but for the count of the errors.
    record Finished (curl : ℕ) (m after : Multi H) : Type 0 where
      freed : after.freed ≡ curl ∷ m.freed
      calls : after.calls ≡ call_of curl (handler_of curl m.handlers) ++ m.calls
      handlers : after.handlers ≡ without curl m.handlers
      added : after.added ≡ m.added

    logged-Finished :
        (curl : ℕ) (b : Bool) (m n : Multi H) → Finished curl m n → Finished curl m (logged b n)
    logged-Finished curl true m n f = record {
      freed = f.freed;
      calls = f.calls;
      handlers = f.handlers;
      added = f.added;
    }
    logged-Finished curl false m n f = f

    called-Finished :
        (curl : ℕ) (o : Option H) (m : Multi H)
        → handler_of curl m.handlers ≡ o
        → Finished curl m (free_curl curl (called curl o m))
    unfolding free_curl
    called-Finished curl none m e = record {
      freed = refl;
      calls = rw e refl;
      handlers = refl;
      added = refl;
    }
    called-Finished curl (some h) m e = record {
      freed = refl;
      calls = rw e refl;
      handlers = refl;
      added = refl;
    }

    finish-Finished : (curl : ℕ) (m : Multi H) → Finished curl m (finish fails curl m)
    unfolding finish
    finish-Finished curl m =
        logged-Finished curl (throws fails curl (handler_of curl m.handlers)) m _
          (called-Finished curl (handler_of curl m.handlers) m refl)

    Explains-cons :
        (curl : ℕ) (rest : List ℕ) (m n after : Multi H)
        → Finished curl m n
        → Explains n after rest
        → Explains m after (curl ∷ rest)
    unfolding handled
    Explains-cons curl rest m n after f later = record {
      freed =
          later.freed
          ∙ rw f.freed
              (rw (reverse-cons curl rest) (sym (append_assoc (reverse rest) (curl ∷ []) m.freed)));
      calls =
          later.calls
          ∙ rw (f.calls, f.handlers) (reverse-call_of curl (handler_of curl m.handlers) _ m.calls);
      handlers = λ h.
          later.handlers h
          ∙ rw f.handlers (rw (handler_of-without h curl m.handlers) (ground arith));
      added = later.added ∙ f.added;
    }

    finish_errors :
        (curl : ℕ) (m : Multi H)
        → (finish fails curl m).errors
          ≡ m.errors + (if throws fails curl (handler_of curl m.handlers) then 1 else 0)
    unfolding finish free_curl
    finish_errors curl m = elim (Option-cases (handler_of curl m.handlers)) [
      | inl nothing ↦ rw nothing (omega arith)
      | inr (h, e) ↦ rw e (elim (Bool-cases (fails curl h)) [
        | inl threw ↦ rw threw refl
        | inr fine ↦ rw fine (omega arith)
      ])
    ]

    -- No handler of these throws, each at its turn.
    abbrev pub AllFine : List (ℕ × H) → List ℕ → Type 0
    AllFine table [] = Unit
    AllFine table (curl ∷ rest) = (Throws table curl → ⊥) × AllFine (without curl table) rest

    -- The handler of the last one throws, and no other does.
    abbrev pub LastThrows : List (ℕ × H) → List ℕ → Type 0
    LastThrows table [] = ⊥
    LastThrows table (curl ∷ []) = Throws table curl
    LastThrows table (curl ∷ (next ∷ rest)) =
        (Throws table curl → ⊥) × LastThrows (without curl table) (next ∷ rest)

    nothing_done : (n : Multi H) (rest : List ℕ) → Explains n (record n { messages = rest }) []
    unfolding handled
    nothing_done n rest = record { freed = refl; calls = refl; handlers = λ h. refl; added = refl }

    throws-Throws :
        (curl : ℕ) (m : Multi H)
        → throws fails curl (handler_of curl m.handlers) ≡ true
        → Throws m.handlers curl
    throws-Throws curl m e = elim (Option-cases (handler_of curl m.handlers)) [
      | inl nothing ↦ absurd (differ (ap (throws fails curl) nothing) e)
      | inr (h, found) ↦ (h, found, sym (ap (throws fails curl) found) ∙ e)
    ]
      where
        differ : {b : Bool} → b ≡ false → b ≡ true → ⊥
        differ p q = cc

    fine-Throws :
        (curl : ℕ) (m : Multi H)
        → throws fails curl (handler_of curl m.handlers) ≡ false
        → Throws m.handlers curl
        → ⊥
    fine-Throws curl m e (h, found, threw) = differ (sym (ap (throws fails curl) found) ∙ e) threw
      where
        differ : {b : Bool} → b ≡ false → b ≡ true → ⊥
        differ p q = cc

    -- How it ends: all messages are looked at and no handler throws, or one error is logged, for the last
    -- handle that was looked at, and no other handler has thrown.
    abbrev pub Ends : Multi H → Multi H → List ℕ → Type 0
    Ends m after done =
        ((after.messages ≡ []) × (after.errors ≡ m.errors) × AllFine m.handlers done)
        ⊎ ((after.errors ≡ m.errors + 1) × LastThrows m.handlers done)

    LastThrows-cons :
        (table : List (ℕ × H)) (curl : ℕ) (done : List ℕ)
        → (Throws table curl → ⊥)
        → LastThrows (without curl table) done
        → LastThrows table (curl ∷ done)
    LastThrows-cons table curl [] fine last = elim last [ ]
    LastThrows-cons table curl (next ∷ done) fine last = (fine, last)

    Ends-cons :
        (curl : ℕ) (m n after : Multi H) (done : List ℕ)
        → n.handlers ≡ without curl m.handlers
        → n.errors ≡ m.errors
        → (Throws m.handlers curl → ⊥)
        → Ends n after done
        → Ends m after (curl ∷ done)
    Ends-cons curl m n after done table same fine (inl (all, errors, others)) =
        inl (all, errors ∙ same, (fine, subst (λ l. AllFine l done) table others))
    Ends-cons curl m n after done table same fine (inr (errors, last)) = inr (
      errors ∙ ap (λ k. k + 1) same,
      LastThrows-cons m.handlers curl done fine (subst (λ l. LastThrows l done) table last),
    )

    check_messages-Explains :
        (messages : List ℕ) (m : Multi H)
        → (done : List ℕ) × (done ++ (check_messages fails messages m).messages ≡ messages)
          × Explains m (check_messages fails messages m) done
          × Ends m (check_messages fails messages m) done
    unfolding check_messages
    check_messages-Explains [] m = (
      [],
      refl,
      record { freed = refl; calls = unfold handled in refl; handlers = λ h. refl; added = refl },
      inl (refl, refl, tt),
    )
    check_messages-Explains (curl ∷ rest) m =
        let f = finish-Finished curl m in
        elim (Bool-cases (throws fails curl (handler_of curl m.handlers))) [
          | inl threw ↦
              rw (check_messages, threw)
                (
                  curl ∷ [],
                  refl,
                  Explains-cons curl [] m (finish fails curl m)
                      (record (finish fails curl m) { messages = rest }) f
                      (nothing_done (finish fails curl m) rest),
                  inr (finish_errors curl m ∙ rw threw refl, throws-Throws curl m threw),
                )
          | inr fine ↦
              let (done, left, explained, ended) =
                check_messages-Explains rest (finish fails curl m) in
              rw (check_messages, fine)
                (
                  curl ∷ done,
                  ap (λ l. curl ∷ l) left,
                  Explains-cons curl done m (finish fails curl m)
                      (check_messages fails rest (finish fails curl m)) f explained,
                  Ends-cons curl m (finish fails curl m)
                      (check_messages fails rest (finish fails curl m)) done f.handlers
                      (finish_errors curl m ∙ rw fine (omega arith)) (fine-Throws curl m fine)
                      ended,
                )
        ]

    -- checkForFinishedCurlJobs looks at some messages, from the first one on: it calls their handlers and
    -- frees their handles, once each and in this order, and no other handler is lost. Either these are all
    -- messages and no handler of theirs throws, or the handler of the last of them throws and no other does:
    -- then one error is logged, and the messages behind are left.
    pub check_finished-Explains :
        (m : Multi H)
        → (done : List ℕ) × (done ++ (check_finished fails m).messages ≡ m.messages)
          × Explains m (check_finished fails m) done
          × Ends m (check_finished fails m) done
    unfolding check_finished
    check_finished-Explains m = check_messages-Explains m.messages m
