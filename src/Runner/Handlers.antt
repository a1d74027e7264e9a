-- ===== src/Runner/Handlers.antt =====
-- runner.hpp: the CURL handles of a Runner, from `multi` until they are freed. What a handler does is
-- whether it throws; libcurl's part is its list of messages.
use libglim.Base.{
  ℕ, ◌+◌, Bool, true, false, Option, none, some, List, [], ◌∷◌, ◌==◌, if◌then◌else◌, is_some,
}

-- A handle is a number, a handler is an H. `calls` are the handlers that were called, with their handles;
-- `freed` the handles that were removed and cleaned up, the last one first.
pub record Multi (H : Type 0) : Type 0 where
  pub handlers : List (ℕ × H)
  pub added : List ℕ
  pub messages : List ℕ
  pub calls : List (ℕ × H)
  pub freed : List ℕ
  pub errors : ℕ

module _ {H : Type 0} where
  unfoldable pub handler_of : ℕ → List (ℕ × H) → Option H
  handler_of curl [] = none
  handler_of curl ((key, h) ∷ rest) =
      let later = handler_of curl rest in if key == curl then some h else later

  unfoldable pub without : ℕ → List (ℕ × H) → List (ℕ × H)
  without curl [] = []
  without curl ((key, h) ∷ rest) =
      let later = without curl rest in if key == curl then later else (key, h) ∷ later

  -- multi: an unordered_map's insert keeps the handler that is there.
  unfoldable pub multi : ℕ → H → Multi H → Multi H
  unfolding handler_of
  multi curl handler m = record m {
    handlers =
        if is_some (handler_of curl m.handlers) then m.handlers else (curl, handler) ∷ m.handlers;
    added = curl ∷ m.added;
  }

  -- ~FreeCurl
  unfoldable pub free_curl : ℕ → Multi H → Multi H
  unfolding without
  free_curl curl m = record m { handlers = without curl m.handlers; freed = curl ∷ m.freed }

  abbrev pub called : ℕ → Option H → Multi H → Multi H
  called curl none m = m
  called curl (some h) m = record m { calls = (curl, h) ∷ m.calls }

  abbrev pub throws : (ℕ → H → Bool) → ℕ → Option H → Bool
  throws fails curl none = false
  throws fails curl (some h) = fails curl h

  abbrev pub logged : Bool → Multi H → Multi H
  logged true m = record m { errors = m.errors + 1 }
  logged false m = m

  -- One message: the handler is called, and the handle is freed whether it throws or not.
  unfoldable pub finish : (ℕ → H → Bool) → ℕ → Multi H → Multi H
  unfolding handler_of free_curl
  finish fails curl m =
      let found = handler_of curl m.handlers in
      logged (throws fails curl found) (free_curl curl (called curl found m))

  -- checkForFinishedCurlJobs, over the messages of curl_multi_info_read: the first handler that throws
  -- ends it, and the messages behind it are left.
  unfoldable pub check_messages : (ℕ → H → Bool) → List ℕ → Multi H → Multi H
  check_messages fails [] m = record m { messages = [] }
  check_messages fails (curl ∷ rest) m =
      let later = check_messages fails rest (finish fails curl m) in
      if throws fails curl (handler_of curl m.handlers)
      then record (finish fails curl m) { messages = rest }
      else later

  unfoldable pub check_finished : (ℕ → H → Bool) → Multi H → Multi H
  unfolding check_messages
  check_finished fails m = check_messages fails m.messages m
