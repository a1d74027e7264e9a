-- ===== src/Exception/Scopes.antt =====
-- The guards of exception.hpp in nested scopes.
use libglim.Base.{
  ℕ, Option-cases, inl, inr, ◌/◌, ◌%◌, ◌==◌, Bool, if◌then◌else◌, arith, sym, subst, none, some,
  ◌≡◌, refl, ap, ◌∙◌, Option, List, [], ◌∷◌, ◌++◌,
}
use libglim.Exception.{Thread, Guard, control, handle, enter, leave, cxa_throw, handle_all}

-- What a block does with the thread's variables: throws (whether it is caught here or unwinds further is
-- the same to the guards, since a destructor runs either way), nested scopes and sequences.
pub data Block : Type 0 where
  skip throw : Block
  scope : Guard → Block → Block
  seq : Block → Block → Block

-- The thread after the block, and the calls of handlers in it.
unfoldable pub run : Block → Thread → Thread × List (Option (ℕ × ℕ))
run skip t = (t, [])
run throw t = (t, cxa_throw t ∷ [])
run (scope g b) t =
    let (saved, inner) = enter g t in let (after, calls) = run b inner in (leave saved after, calls)
run (seq a b) t =
    let (mid, calls) = run a t in let (after, more) = run b mid in (after, calls ++ more)

leave-enter : (g : Guard) (t : Thread) → leave (enter g t).0 (enter g t).1 ≡ t
unfolding enter leave
leave-enter (control options) t = refl
leave-enter (handle options handler arg) t = refl

-- A block leaves the thread's options, handler and argument as it found them.
pub run-restores : (b : Block) (t : Thread) → (run b t).0 ≡ t
unfolding run
run-restores skip t = refl
run-restores throw t = refl
run-restores (scope g b) t =
    ap (leave (enter g t).0) (run-restores b (enter g t).1) ∙ leave-enter g t
run-restores (seq a b) t = run-restores b (run a t).0 ∙ run-restores a t

-- The options under these guards, the innermost one first: those of the innermost guard, or the thread's.
abbrev pub options_under : Thread → List Guard → ℕ
options_under t [] = t.options
options_under t (control options ∷ guards) = options
options_under t (handle options handler arg ∷ guards) = options

-- The handler with its argument: that of the innermost ExceptionHandler, or the thread's.
abbrev pub handler_under : Thread → List Guard → Option (ℕ × ℕ)
handler_under t [] = elim t.handler [ none ↦ none | some handler ↦ some (handler, t.handler_arg) ]
handler_under t (control options ∷ guards) = handler_under t guards
handler_under t (handle options none arg ∷ guards) = none
handler_under t (handle options (some handler) arg ∷ guards) = some (handler, arg)

-- HANDLE_ALL, the bit of 2.
abbrev pub handles_all : ℕ → Bool
handles_all options = options / 2 % 2 == 1

-- The calls of handlers in a block under these guards.
unfoldable pub expected : Thread → List Guard → Block → List (Option (ℕ × ℕ))
expected t guards skip = []
expected t guards throw =
    (if handles_all (options_under t guards) then handler_under t guards else none) ∷ []
expected t guards (scope g b) = expected t (g ∷ guards) b
expected t guards (seq a b) = expected t guards a ++ expected t guards b

abbrev call_of : Option ℕ → ℕ → Option (ℕ × ℕ)
call_of none arg = none
call_of (some handler) arg = some (handler, arg)

-- `u` is the thread under these guards.
record Under (t : Thread) (guards : List Guard) (u : Thread) : Type 0 where
  options : u.options ≡ options_under t guards
  handler : call_of u.handler u.handler_arg ≡ handler_under t guards

enter-Under :
    (t u : Thread) (guards : List Guard) (g : Guard)
    → Under t guards u
    → Under t (g ∷ guards) (enter g u).1
unfolding enter
enter-Under t u guards (control options) h = record { options = refl; handler = h.handler }
enter-Under t u guards (handle options none arg) h = record { options = refl; handler = refl }
enter-Under t u guards (handle options (some handler) arg) h = record {
  options = refl;
  handler = refl;
}

handles_all_lem : (options : ℕ) → handle_all options ≡ handles_all options
unfolding handle_all
handles_all_lem options = ground arith

cxa_throw_lem :
    (u : Thread)
    → cxa_throw u ≡ (if handles_all u.options then call_of u.handler u.handler_arg else none)
unfolding cxa_throw
cxa_throw_lem u = elim (Option-cases u.handler) [
  | inl nothing ↦ rw (handles_all_lem u.options, nothing) refl
  | inr (handler, e) ↦ rw (handles_all_lem u.options, e) refl
]

run_lem :
    (b : Block) (t u : Thread) (guards : List Guard)
    → Under t guards u
    → (run b u).1 ≡ expected t guards b
unfolding run expected
run_lem skip t u guards h = refl
run_lem throw t u guards h =
    ap (λ call. call ∷ []) (cxa_throw_lem u ∙ rw (h.options, h.handler) refl)
run_lem (scope g b) t u guards h =
    run_lem b t (enter g u).1 (g ∷ guards) (enter-Under t u guards g h)
run_lem (seq a b) t u guards h =
    ap (λ calls. calls ++ (run b (run a u).0).1) (run_lem a t u guards h)
    ∙ ap (λ calls. expected t guards a ++ calls)
        (run_lem b t (run a u).0 guards (subst (Under t guards) (sym (run-restores a u)) h))

-- A throw calls the handler of the innermost ExceptionHandler around it, or else the thread's, if the
-- options of the innermost guard around it, or else the thread's, have HANDLE_ALL, and no handler without;
-- so it is after other scopes were left, too.
pub run-handlers : (b : Block) (t : Thread) → (run b t).1 ≡ expected t [] b
run-handlers b t = run_lem b t t [] (record { options = refl; handler = thread_handler t.handler })
  where
    thread_handler :
        (o : Option ℕ)
        → call_of o t.handler_arg
          ≡ elim o [ none ↦ none | some handler ↦ some (handler, t.handler_arg) ]
    thread_handler none = refl
    thread_handler (some handler) = refl
