-- ===== src/Exception.antt =====
-- exception.hpp: the exceptions with file, line and stack trace, and the thread's options, which the
-- control objects change for the time of a scope. The stack trace is the platform's: a parameter.
pub mod Scopes
pub mod What
pub mod Tests
use libglim.Base.{
  ℕ, zero, suc, ◌+◌, ◌/◌, ◌%◌, ◌^◌, ◌≡◌, Bool, true, false, ◌||◌, not, Option, none, some, List, [],
  ◌∷◌, ◌++◌, ◌==◌, if◌then◌else◌, is_some,
}
use libglim.Base.Int.{ℤ, pos, negsuc}
use libglim.Itoa.{codes, itoa}

-- The options: PLAIN_WHAT = 1, HANDLE_ALL = 2, CAPTURE_TRACE = 4, RENDEZVOUS = 8.
abbrev pub has_bit : ℕ → ℕ → Bool
has_bit options bit = not (options / 2 ^ bit % 2 == 0)

unfoldable pub plain_what : ℕ → Bool
plain_what options = has_bit options 0

unfoldable pub handle_all : ℕ → Bool
handle_all options = has_bit options 1

unfoldable pub capture_trace : ℕ → Bool
capture_trace options = has_bit options 2

-- `what` is the buffer `_what`, `message` the one of std::runtime_error.
pub record Exception : Type 0 where
  pub file : Option (List ℕ)
  pub line : ℤ
  pub what : List ℕ
  pub options : ℕ
  pub message : List ℕ

abbrev is_positive : ℤ → Bool
is_positive (pos zero) = false
is_positive (pos (suc n)) = true
is_positive (negsuc n) = false

abbrev file_text : Option (List ℕ) → List ℕ
file_text none = []
file_text (some file) = file

-- A line below 0 is left out.
abbrev line_text : ℤ → List ℕ
line_text (pos n) = b':' ∷ itoa (pos n) 10
line_text (negsuc n) = []

-- appendLine
unfoldable pub append_line : Exception → List ℕ → List ℕ
append_line e buf =
    if is_some e.file || is_positive e.line
    then buf ++ (b'[' ∷ [] ++ file_text e.file ++ line_text e.line ++ codes "] ")
    else buf

-- capture: the stack trace is asked for only if the option is set.
unfoldable pub capture : List ℕ → Exception → Exception
capture trace e =
    if capture_trace e.options
    then record e {
      what = append_line e e.what ++ codes "[at " ++ trace ++ codes "] " ++ e.message;
    }
    else e

-- Exception (message, file, line), with the options of the thread.
unfoldable pub construct : List ℕ → List ℕ → Option (List ℕ) → ℤ → ℕ → Exception
construct trace message file line options =
    capture trace
      (record { file = file; line = line; what = []; options = options; message = message })

abbrev pub is_nil : List ℕ → Bool
is_nil [] = true
is_nil (x ∷ xs) = false

-- what: the text, and the object after the call, which keeps the text.
unfoldable pub get_what : Exception → List ℕ × Exception
get_what e =
    if plain_what e.options
    then (e.message, e)
    else if is_nil e.what
    then (append_line e e.what ++ e.message, record e { what = append_line e e.what ++ e.message })
    else (e.what, e)

-- The thread-local variables; a handler is known by a number, and none is nullptr.
pub record Thread : Type 0 where
  pub options : ℕ
  pub handler : Option ℕ
  pub handler_arg : ℕ

-- ExceptionControl keeps the options, ExceptionHandler all three.
pub data Guard : Type 0 where
  control : ℕ → Guard
  handle : ℕ → Option ℕ → ℕ → Guard

-- The constructors of the guards: what they save, and the thread after them.
unfoldable pub enter : Guard → Thread → Guard × Thread
enter (control options) t = (control t.options, record t { options = options })
enter (handle options handler arg) t = (
  handle t.options t.handler t.handler_arg,
  record { options = options; handler = handler; handler_arg = arg },
)

-- Their destructors, on what they saved.
unfoldable pub leave : Guard → Thread → Thread
leave (control saved) t = record t { options = saved }
leave (handle saved handler arg) t = record {
  options = saved;
  handler = handler;
  handler_arg = arg;
}

-- The call of the handler in __cxa_throw, as the handler and its argument.
unfoldable pub cxa_throw : Thread → Option (ℕ × ℕ)
cxa_throw t = if handle_all t.options then call t.handler t.handler_arg else none
  where
    call : Option ℕ → ℕ → Option (ℕ × ℕ)
    call none arg = none
    call (some handler) arg = some (handler, arg)
