-- ===== src/Runner/Loop.antt =====
-- runner.hpp: the loop of RunnerV2 over its CURL handles, from addToCURLM until a listener frees them.
-- What libcurl does is its list of messages; a handle is a number.
use libglim.Base.{
  ℕ, ◌+◌, Bool, true, false, Option, none, some, List, [], ◌∷◌, ◌++◌, ltb, ◌==◌, if◌then◌else◌,
  length,
}

-- CurlmInformationListener: whether `information` throws, and the FreeOptions that it returns.
pub record Listener : Type 0 where
  pub throws : Bool
  pub removes_curl : Bool
  pub cleans_curl : Bool
  pub deletes_listener : Bool

-- FunCurlmLisneter, which logs what its function throws.
abbrev pub fun_listener : Bool → Bool → Bool → Listener
fun_listener removes cleans deletes = record {
  throws = false;
  removes_curl = removes;
  cleans_curl = cleans;
  deletes_listener = deletes;
}

-- What CURLINFO_PRIVATE of a handle gives: an error, a null pointer or a listener.
pub data Private : Type 0 where
  unreadable no_pointer : Private
  listens : Listener → Private

-- `called` are the handles whose listeners were called; `removed`, `cleaned` and `deleted` those that were
-- removed, cleaned up or whose listeners were deleted, the last one first.
pub record Loop : Type 0 where
  pub queue : List ℕ
  pub added : List ℕ
  pub private_of : ℕ → Private
  pub called : List ℕ
  pub removed : List ℕ
  pub cleaned : List ℕ
  pub deleted : List ℕ
  pub errors : ℕ

-- addToCURLM: false is a queue that is full, which throws.
unfoldable pub add_to_curlm : ℕ → Loop → Bool × Loop
add_to_curlm curl s =
    if ltb (length s.queue) 64
    then (true, record s { queue = s.queue ++ curl ∷ [] })
    else (false, s)

-- addToCURLM with a listener.
unfoldable pub add_with_listener : ℕ → Listener → Loop → Bool × Loop
unfolding add_to_curlm
add_with_listener curl listener s = add_to_curlm curl (record s {
  private_of = λ other. if other == curl then listens listener else s.private_of other;
})

-- The handles that wait are added to the CURLM.
unfoldable pub take_queue : Loop → Loop
take_queue s = record s { queue = []; added = s.added ++ s.queue }

abbrev pub push_if : Bool → ℕ → List ℕ → List ℕ
push_if true curl curls = curl ∷ curls
push_if false curl curls = curls

abbrev pub freed_by : Listener → ℕ → Loop → Loop
freed_by l curl s = record s {
  removed = push_if (l.removes_curl) curl s.removed;
  cleaned = push_if (l.cleans_curl) curl s.cleaned;
  deleted = push_if (l.deletes_listener) curl s.deleted;
}

abbrev pub informed : Private → ℕ → Loop → Option Loop
informed unreadable curl s =
    some (record s { removed = curl ∷ s.removed; cleaned = curl ∷ s.cleaned })
informed no_pointer curl s = none
informed (listens l) curl s = some (
    if l.throws
    then record s { called = curl ∷ s.called; errors = s.errors + 1 }
    else freed_by l curl (record s { called = curl ∷ s.called }))

abbrev pub and_then : Option Loop → (Loop → Option Loop) → Option Loop
and_then none f = none
and_then (some s) f = f s

-- The loop over the messages; none is a call through a null pointer.
unfoldable pub process : List ℕ → Loop → Option Loop
process [] s = some s
process (curl ∷ messages) s = and_then (informed (s.private_of curl) curl s) (process messages)

-- One round of the loop, with the messages that curl_multi_perform leaves.
unfoldable pub run_round : (List ℕ → List ℕ) → Loop → Option Loop
unfolding take_queue process
run_round perform s = let ready = take_queue s in process (perform ready.added) ready
