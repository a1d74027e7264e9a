-- ===== src/Coroutine/Tests.antt =====
-- A coroutine with a cache of one stack is destroyed, and another one takes the cached stack.
use libglim.Base.{ℕ, ◌≢◌, ◌+◌, ◌≤◌, ◌≡◌, refl, true, some, List, [], ◌∷◌, arith, length, ==_ne}
use libglim.Coroutine.{
  StackPool, System, no_stacks, construct, destroy, Happens, start, next, allocate_stack,
  free_stack,
}
use libglim.Coroutine.Control.{
  Coro, new_coro, Reached, created, stepped, starts, yields_at, fun_ends, invoke_from_callback,
  yield_end, yield_begin,
}
use libglim.Coroutine.Control
use libglim.Coroutine.Turns.{Answers, revived, invoke_from_callback-Answers, Reached-turns}
use libglim.Coroutine.Stacks.{count, Fresh, Happens-Separate}

-- The sum of the mapped addresses and one more, which is above each of them.
abbrev total : List ℕ → ℕ
total [] = 1
total (x ∷ xs) = x + total xs

abbrev system : System
system = record { mmap = λ m. some (total m.free + total m.used); munmap = λ stack. true }

abbrev pool : List ℕ → List ℕ → StackPool
pool free used = record { free = free; used = used }

total_positive : (xs : List ℕ) → 1 ≤ total xs
total_positive [] = omega arith
total_positive (x ∷ xs) = omega (arith, total_positive xs)

count-below : (x : ℕ) (xs : List ℕ) → total xs ≤ x → count x xs ≡ 0
unfolding count
count-below x [] h = refl
count-below x (y ∷ ys) h =
    rw (==_ne x y (λ e. omega (arith, h, e, total_positive ys)))
      (omega (arith, count-below x ys (omega (arith, h))))

fresh : Fresh system
fresh m stack e =
    let at : total m.free + total m.used ≡ stack = cc in
    omega
      (arith, at, count-below stack m.free (omega arith), count-below stack m.used (omega arith))

reached : Happens system 1 (pool [] (2 ∷ []))
unfolding allocate_stack free_stack
reached =
    next (pool (2 ∷ []) []) _
      (next (pool [] (2 ∷ [])) _ (next no_stacks _ start (construct 1 2 [] (omega arith) refl))
        (destroy 1 2 (2 ∷ []) [] [] (omega arith) refl refl))
      (construct 1 2 [] (omega arith) refl)

Happens-Separate_example : ((x : ℕ) → count x [] + count x (2 ∷ []) ≤ 1) × (length {A = ℕ} [] ≤ 1)
Happens-Separate_example = Happens-Separate system fresh 1 (pool [] (2 ∷ [])) reached

-- A coroutine that was started by thread 1 and has yielded.
abbrev waiting : Coro
waiting = record new_coro { place = Control.suspended; yields = 1 }

waiting-Reached : Reached waiting
unfolding yield_end yield_begin Control.start
waiting-Reached =
    stepped _ _ (stepped _ _ (stepped _ _ created (starts 1 refl refl)) (yields_at 1 refl))
      (fun_ends 1 refl)

invoke_from_callback-Answers_example : Answers 2 Control.suspended waiting (revived 2 waiting)
invoke_from_callback-Answers_example =
    invoke_from_callback-Answers 2 waiting (revived 2 waiting) waiting-Reached (omega arith)
      (unfold invoke_from_callback in refl)

Reached-turns_example :
    (waiting.place ≡ Control.suspended
      → (waiting.yields ≡ waiting.calls + 1)
        × ((t : ℕ) → invoke_from_callback t waiting ≡ some (revived t waiting)))
    × (waiting.yields ≡ waiting.calls → waiting.place ≢ Control.suspended)
    × (waiting.returns ≤ waiting.yields)
    × (waiting.yields ≤ waiting.returns + 1)
Reached-turns_example = Reached-turns waiting waiting-Reached
