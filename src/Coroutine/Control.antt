-- ===== src/Coroutine/Control.antt =====
-- cbcoro.hpp: how CBCoro hands the control of a thread to a coroutine and back. The fields are read and
-- written by the thread that holds the coroutine's mutex alone, so that a step is what such a thread does
-- until the coroutine or its caller goes on. Threads are numbers.
use libglim.Base.{ℕ, ◌+◌, ◌-◌, ◌<◌, ◌≡◌, Bool, true, false, Option, none, some, ◌==◌, if◌then◌else◌}

-- Where the coroutine's code stands: not started, in `run`, in the `fun` of yieldForCallback on a thread,
-- captured in yieldForCallback, over, and captured for ever, since a thread failed to swap to it.
pub data Place : Type 0 where
  unstarted suspended over : Place
  on_stack in_fun lost : ℕ → Place

-- `return_to` is the thread whose context is to be restored. `yields`, `calls` and `returns` count the
-- calls of yieldForCallback, those of invokeFromCallback and the returns of yieldForCallback; a
-- yieldForCallback that an exception leaves is not counted.
pub record Coro : Type 0 where
  pub place : Place
  pub return_to : Option ℕ
  pub holder : Option ℕ
  pub invoke_from_yield : Bool
  pub yield_from_invoke : Bool
  pub yields : ℕ
  pub calls : ℕ
  pub returns : ℕ

-- CBCoro()
abbrev pub new_coro : Coro
new_coro = record {
  place = unstarted;
  return_to = none;
  holder = none;
  invoke_from_yield = false;
  yield_from_invoke = false;
  yields = 0;
  calls = 0;
  returns = 0;
}

-- Whether a thread may lock the recursive mutex.
abbrev pub free_for : ℕ → Option ℕ → Bool
free_for t none = true
free_for t (some other) = t == other

-- start, until the coroutine runs.
unfoldable pub start : ℕ → Coro → Coro
start t c = record c { return_to = some t; holder = some t; place = on_stack t }

-- yieldForCallback, up to the call of `fun`.
unfoldable pub yield_begin : ℕ → Coro → Coro
yield_begin t c = record c { yield_from_invoke = false; place = in_fun t; yields = c.yields + 1 }

abbrev pub yield_returns : ℕ → Coro → Coro
yield_returns t c = record c { place = on_stack t; returns = c.returns + 1 }

-- cbcReturn: without a context to restore the code goes on where it is. With one, the caller in start or
-- in invokeFromCallback unlocks the mutex.
abbrev pub cbc_return : Coro → Place → Option ℕ → Coro → Coro
cbc_return on p none c = on
cbc_return on p (some owner) c = record c { return_to = none; holder = none; place = p }

-- yieldForCallback, behind the call of `fun`.
unfoldable pub yield_end : ℕ → Coro → Coro
yield_end t c =
    if c.invoke_from_yield
    then yield_returns t (record c { invoke_from_yield = false })
    else cbc_return (yield_returns t c) suspended c.return_to c

-- The end of cbcRun.
unfoldable pub run_end : Coro → Coro
run_end c = cbc_return (record c { place = over }) over c.return_to c

-- swapcontext to the context that yieldForCallback captured, which looks at the flag.
abbrev pub swap_in : ℕ → Coro → Coro
swap_in t c = if c.yield_from_invoke then yield_returns t c else record c { place = in_fun t }

abbrev pub lend : ℕ → Option ℕ → Coro → Coro
lend t (some owner) c = record c { invoke_from_yield = true; calls = c.calls + 1 }
lend t none c = swap_in t (record c {
  return_to = some t;
  yield_from_invoke = true;
  holder = some t;
  calls = c.calls + 1;
})

-- invokeFromCallback, until the coroutine runs or the call has returned; none is a thread that waits for
-- the mutex.
unfoldable pub invoke_from_callback : ℕ → Coro → Option Coro
invoke_from_callback t c = if free_for t c.holder then some (lend t c.return_to c) else none

-- yieldForCallback, left by an exception: of getcontext, and of `fun`.
unfoldable pub capture_fails : Coro → Coro
capture_fails c = record c { yield_from_invoke = false }

unfoldable pub fun_throws : ℕ → Coro → Coro
fun_throws t c = record c { place = on_stack t; yields = c.yields - 1 }

-- invokeFromCallback of a suspended coroutine, when swapcontext fails: the exception leaves the mutex
-- locked.
unfoldable pub swap_fails : ℕ → Coro → Coro
swap_fails t c = record c {
  place = lost t;
  return_to = some t;
  yield_from_invoke = true;
  holder = some t;
  calls = c.calls + 1;
}

-- What happens to a coroutine. A callback is not called more often than the coroutine has yielded, and a
-- `fun` that throws has led to no call.
pub data Step (c : Coro) : Coro → Type 0 where
  starts : (t : ℕ) → c.place ≡ unstarted → c.holder ≡ none → Step c (start t c)
  yields_at : (t : ℕ) → c.place ≡ on_stack t → Step c (yield_begin t c)
  fun_ends : (t : ℕ) → c.place ≡ in_fun t → Step c (yield_end t c)
  capture_fails_at : (t : ℕ) → c.place ≡ on_stack t → Step c (capture_fails c)
  fun_throws_at :
      (t : ℕ) → c.place ≡ in_fun t → c.invoke_from_yield ≡ false → Step c (fun_throws t c)
  swap_fails_at : (t : ℕ) → c.calls < c.yields → c.place ≡ suspended → Step c (swap_fails t c)
  run_ends : (t : ℕ) → c.place ≡ on_stack t → Step c (run_end c)
  called : (t : ℕ) (d : Coro) → c.calls < c.yields → invoke_from_callback t c ≡ some d → Step c d

pub data Reached : Coro → Type 0 where
  created : Reached new_coro
  stepped : (c d : Coro) → Reached c → Step c d → Reached d
