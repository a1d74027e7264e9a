-- ===== src/Exception/Tests.antt =====
-- The theorems of exceptions at concrete objects and scopes.
use libglim.Base.{[], ◌≡◌, none, some}
use libglim.Exception.{Thread, control, handle}
use libglim.Exception.Scopes.{Block, throw, scope, seq, run, run-restores, run-handlers, expected}

abbrev quiet : Thread
quiet = record { options = 0; handler = none; handler_arg = 0 }

-- A handler for all exceptions, with plain exceptions in an inner scope.
abbrev nested : Block
nested = scope (handle 2 (some 5) 9) (seq (scope (control 1) throw) throw)

run-restores_example : (run nested quiet).0 ≡ quiet
run-restores_example = run-restores nested quiet

run-handlers_example : (run nested quiet).1 ≡ expected quiet [] nested
run-handlers_example = run-handlers nested quiet
