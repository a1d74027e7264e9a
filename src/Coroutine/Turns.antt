-- ===== src/Coroutine/Turns.antt =====
-- What a call of a callback finds, and that none is lost.
use libglim.Base.{
  ℕ, ◌+◌, ◌≤◌, ◌<◌, ◌≡◌, ◌≢◌, refl, sym, ap, subst, ◌∙◌, ◌⊎◌, inl, inr, true, false, none, some,
  ◌==◌, if◌then◌else◌, arith, Bool-cases, ==_iff,
}
use libglim.Coroutine.Control.{
  Place, lost, capture_fails, fun_throws, swap_fails, capture_fails_at, fun_throws_at,
  swap_fails_at, unstarted, suspended, over, on_stack, in_fun, Coro, free_for, start, yield_begin,
  yield_end, run_end, lend, invoke_from_callback, Step, starts, yields_at, fun_ends, run_ends,
  called, Reached, created, stepped,
}

-- Nobody runs the coroutine, and no flag is left.
abbrev Idle : Coro → Type 0
Idle c = (c.holder ≡ none) × (c.return_to ≡ none) × (c.invoke_from_yield ≡ false)

-- What holds of the fields at each place.
abbrev At : Place → Coro → Type 0
At unstarted c = Idle c × (c.yields ≡ c.calls) × (c.returns ≡ c.calls)
At suspended c = Idle c × (c.yields ≡ c.calls + 1) × (c.returns ≡ c.calls)
At over c = Idle c × (c.yields ≡ c.calls) × (c.returns ≡ c.calls)
At (on_stack t) c =
    (c.holder ≡ some t)
    × (c.return_to ≡ some t)
    × (c.invoke_from_yield ≡ false)
    × (c.yields ≡ c.calls)
    × (c.returns ≡ c.calls)
At (lost t) c = (c.yields ≡ c.calls) × (c.yields ≡ c.returns + 1)
At (in_fun t) c =
    (c.holder ≡ some t)
    × (c.return_to ≡ some t)
    × (c.yields ≡ c.returns + 1)
    × (c.yields ≡ c.calls + (if c.invoke_from_yield then 0 else 1))

At-place : (c : Coro) (p : Place) → c.place ≡ p → At c.place c → At p c
At-place c p e inv = subst (λ q. At q c) e inv

-- A suspended coroutine that a thread has revived: its yieldForCallback returns.
abbrev pub revived : ℕ → Coro → Coro
revived t c = record c {
  place = on_stack t;
  return_to = some t;
  holder = some t;
  yield_from_invoke = true;
  calls = c.calls + 1;
  returns = c.returns + 1;
}

-- A call from `fun` itself: nothing happens, but that yieldForCallback is told.
abbrev pub told : Coro → Coro
told c = record c { invoke_from_yield = true; calls = c.calls + 1 }

-- What a call that is not made to wait does.
abbrev pub Answers : ℕ → Place → Coro → Coro → Type 0
Answers t p c d = ((p ≡ suspended) × (d ≡ revived t c)) ⊎ ((p ≡ in_fun t) × (d ≡ told c))

some_injective : {A : Type 0} {x y : A} → some x ≡ some y → x ≡ y
some_injective e = cc

invoke_lem :
    (t : ℕ) (p : Place) (c d : Coro)
    → At p c
    → c.calls < c.yields
    → invoke_from_callback t c ≡ some d
    → Answers t p c d
unfolding invoke_from_callback
invoke_lem t unstarted c d inv fewer e = absurd (omega (arith, inv, fewer))
invoke_lem t over c d inv fewer e = absurd (omega (arith, inv, fewer))
invoke_lem t (on_stack s) c d inv fewer e = absurd (omega (arith, inv, fewer))
invoke_lem t (lost s) c d inv fewer e = absurd (omega (arith, inv, fewer))
invoke_lem t suspended c d ((free, to, flag), yields, returns) fewer e =
    inl (refl, sym (some_injective (rw (free, to) at e)))
invoke_lem t (in_fun s) c d (held, to, yields, rest) fewer e = elim (Bool-cases (t == s)) [
  | inl same ↦
      let free : free_for t c.holder ≡ true = ap (free_for t) held ∙ same in
      inr (
        ap in_fun (sym ((==_iff t s).0 same)),
        sym (some_injective (rw free at e)) ∙ ap (λ o. lend t o c) to,
      )
  | inr other ↦
      let busy : free_for t c.holder ≡ false = ap (free_for t) held ∙ other in
      absurd (waits (rw busy at e))
]
  where
    waits : {d : Coro} → none ≡ some d → ⊥
    waits e = cc

Answers-At :
    (t : ℕ) (c d : Coro) → At c.place c → c.calls < c.yields → Answers t c.place c d → At d.place d
Answers-At t c d inv fewer (inl (at, e)) =
    let ((free, to, flag), yields, returns) = At-place c suspended at inv in
    subst (λ d. At d.place d) (sym e)
      (refl, refl, flag, omega (arith, yields), omega (arith, returns))
Answers-At t c d inv fewer (inr (at, e)) =
    let (held, to, yields, rest) = At-place c (in_fun t) at inv in
    subst (λ d. At d.place d) (sym e)
      (subst (λ q. At q (told c)) (sym at) (held, to, yields, ground (arith, fewer, rest)))

yield_end-At :
    (t : ℕ) (c : Coro)
    → c.place ≡ in_fun t
    → At c.place c
    → At (yield_end t c).place (yield_end t c)
unfolding yield_end
yield_end-At t c at inv =
    let (held, to, yields, rest) = At-place c (in_fun t) at inv in
    elim (Bool-cases c.invoke_from_yield) [
      | inl flag ↦
          let settled : c.yields ≡ c.calls + 0 = rest ∙ rw flag refl in
          rw flag (held, to, refl, omega (arith, settled), omega (arith, yields, settled))
      | inr flag ↦
          let missing : c.yields ≡ c.calls + 1 = rest ∙ rw flag refl in
          rw (flag, to) ((refl, refl, refl), missing, omega (arith, yields, missing))
    ]

run_end-At :
    (t : ℕ) (c : Coro) → c.place ≡ on_stack t → At c.place c → At (run_end c).place (run_end c)
unfolding run_end
run_end-At t c at inv =
    let (held, to, flag, yields, returns) = At-place c (on_stack t) at inv in
    rw to ((refl, refl, flag), yields, returns)

Step-At : (c d : Coro) → Step c d → At c.place c → At d.place d
unfolding start yield_begin capture_fails fun_throws swap_fails
Step-At c _ (starts t at free) inv =
    let ((still, to, flag), yields, returns) = At-place c unstarted at inv in
    (refl, refl, flag, yields, returns)
Step-At c _ (yields_at t at) inv =
    let (held, to, flag, yields, returns) = At-place c (on_stack t) at inv in
    (held, to, omega (arith, yields, returns), rw flag (omega (arith, yields)))
Step-At c _ (fun_ends t at) inv = yield_end-At t c at inv
Step-At c _ (capture_fails_at t at) inv =
    let (held, to, flag, yields, returns) = At-place c (on_stack t) at inv in
    subst (λ q. At q (capture_fails c)) (sym at) (held, to, flag, yields, returns)
Step-At c _ (fun_throws_at t at flag) inv =
    let (held, to, yields, rest) = At-place c (in_fun t) at inv in
    let missing : c.yields ≡ c.calls + 1 = rest ∙ rw flag refl in
    (held, to, flag, omega (arith, missing), omega (arith, yields, missing))
Step-At c _ (swap_fails_at t fewer at) inv =
    let (idle, yields, returns) = At-place c suspended at inv in
    (yields, omega (arith, yields, returns))
Step-At c _ (run_ends t at) inv = run_end-At t c at inv
Step-At c d (called t _ fewer e) inv =
    Answers-At t c d inv fewer (invoke_lem t (c.place) c d inv fewer e)

Reached-At : (c : Coro) → Reached c → At c.place c
Reached-At _ created = ((refl, refl, refl), refl, refl)
Reached-At d (stepped c _ run step) = Step-At c d step (Reached-At c run)

At-counts : (p : Place) (c : Coro) → At p c → (c.returns ≤ c.yields) × (c.yields ≤ c.returns + 1)
At-counts unstarted c (idle, yields, returns) =
    (omega (arith, yields, returns), omega (arith, yields, returns))
At-counts over c (idle, yields, returns) =
    (omega (arith, yields, returns), omega (arith, yields, returns))
At-counts suspended c (idle, yields, returns) =
    (omega (arith, yields, returns), omega (arith, yields, returns))
At-counts (on_stack t) c (held, to, flag, yields, returns) =
    (omega (arith, yields, returns), omega (arith, yields, returns))
At-counts (lost t) c (yields, returns) = (omega (arith, returns), omega (arith, returns))
At-counts (in_fun t) c (held, to, yields, rest) = (omega (arith, yields), omega (arith, yields))

-- If callbacks are called no more often than the coroutine has yielded, and a `fun` that throws has led to
-- no call, then a call that is not made to wait, and whose swapcontext does not fail, either finds the
-- coroutine suspended, and yieldForCallback returns on the calling thread, or comes from the `fun` of
-- yieldForCallback, which is told so.
pub invoke_from_callback-Answers :
    (t : ℕ) (c d : Coro)
    → Reached c
    → c.calls < c.yields
    → invoke_from_callback t c ≡ some d
    → Answers t c.place c d
invoke_from_callback-Answers t c d run fewer e =
    invoke_lem t (c.place) c d (Reached-At c run) fewer e

-- If callbacks are called no more often than the coroutine has yielded, and a `fun` that throws has led to
-- no call, then a suspended coroutine waits for one call, for which no thread has to wait for the mutex;
-- when all the calls were made it is not suspended; and yieldForCallback has returned as often as it was
-- called, but for one call at most, those apart that an exception left. A coroutine to which swapcontext
-- failed is lost and does not count as suspended.
pub Reached-turns :
    (c : Coro)
    → Reached c
    → (c.place ≡ suspended
        → (c.yields ≡ c.calls + 1) × ((t : ℕ) → invoke_from_callback t c ≡ some (revived t c)))
      × (c.yields ≡ c.calls → c.place ≢ suspended)
      × (c.returns ≤ c.yields)
      × (c.yields ≤ c.returns + 1)
unfolding invoke_from_callback
Reached-turns c run =
    let inv = Reached-At c run in
    (
      λ at.
          let ((free, to, flag), yields, returns) = At-place c suspended at inv in
          (yields, λ t. rw (free, to) refl),
      λ all at.
          let (idle, yields, returns) = At-place c suspended at inv in omega (arith, all, yields),
      (At-counts (c.place) c inv).0,
      (At-counts (c.place) c inv).1,
    )
