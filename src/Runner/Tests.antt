-- ===== src/Runner/Tests.antt =====
-- A table of two jobs, a message, and the life of a runner.
use libglim.Base.{
  ℕ, ◌+◌, ◌-◌, ◌≤◌, ◌≡◌, ◌≢◌, refl, ◌⊎◌, inl, inr, Bool, true, false, some, List, [], ◌∷◌, ◌++◌,
  ltb, leb, ◌==◌, if◌then◌else◌, arith,
}
use libglim.Base.Int.{pos}
use libglim.Compare.{equals, memcmp_same}
use libglim.Itoa.{codes}
use libglim.Runner.{
  Timespec, Floats, JobInfo, Jobs, lookup, run_jobs, Answer, keep, stop, curl_timer, restart,
}
use libglim.Runner.Names.{Unique}
use libglim.Runner.Due.{quiet, after_run, lookup-run_jobs}
use libglim.Runner.Handlers.{Multi, check_finished}
use libglim.Runner.Finished.{Explains, Ends, check_finished-Explains}
use libglim.Runner.Loop.{Private, unreadable, listens, fun_listener, Loop, process}
use libglim.Runner.Freed.{is_called, is_removed, is_cleaned, is_deleted, Times, process-Times}
use libglim.Runner.Lifetime.{
  Runner, tested, looping, over, new_runner, add_first, test_passes, set_running, release_last,
  Accesses, release_last-tested, CarefulAccesses, begun, careful, CarefulAccesses-deletions,
}

-- Seconds as whole numbers.
abbrev whole : Floats ℕ
whole = record {
  one = 1;
  is_positive = λ f. ltb 0 f;
  is_at_most_zero = λ f. f == 0;
  elapsed = λ from to. to.sec - from.sec;
  at_least = λ a b. leb b a;
}

abbrev at : ℕ → Timespec
at s = record { sec = s; nsec = 0 }

-- A job that goes on, and one that stops.
abbrev two_jobs : Jobs ℕ Bool
two_jobs =
    (codes "a", record { job = some true; pause_sec = 5; ran = at 10 })
    ∷ (codes "b", record { job = some false; pause_sec = 0; ran = at 0 })
    ∷ []

two_jobs-Unique : Unique two_jobs
unfolding lookup equals memcmp_same
two_jobs-Unique = (refl, (refl, tt))

abbrev answers : Bool → JobInfo ℕ Bool → Answer
answers f info = if f then keep else stop

lookup-run_jobs_example :
    lookup (codes "b") (run_jobs whole (quiet whole answers) (at 20) two_jobs)
    ≡ after_run whole answers (at 20) (lookup (codes "b") two_jobs)
lookup-run_jobs_example = lookup-run_jobs whole answers (at 20) (codes "b") two_jobs two_jobs-Unique

-- Three messages, the second one for a handler that throws.
abbrev three_messages : Multi Bool
three_messages = record {
  handlers = (1, true) ∷ (2, false) ∷ (3, true) ∷ [];
  added = [];
  messages = 1 ∷ 2 ∷ 3 ∷ [];
  calls = [];
  freed = [];
  errors = 0;
}

check_finished-Explains_example :
    (done : List ℕ) × (done
        ++ (check_finished (λ curl h. if h then false else true) three_messages).messages
      ≡ three_messages.messages)
    × Explains three_messages
        (check_finished (λ curl h. if h then false else true) three_messages)
        done
    × Ends
        (λ curl h. if h then false else true)
        three_messages
        (check_finished (λ curl h. if h then false else true) three_messages)
        done
check_finished-Explains_example =
    check_finished-Explains (λ curl h. if h then false else true) three_messages

-- A runner whose thread has passed the test, with one pointer.
abbrev tested_runner : Runner
tested_runner = record new_runner { references = 1; owned = true; phase = tested }

release_last-tested_example :
    (s : Runner) × Accesses tested_runner s × (s.deletions ≡ tested_runner.deletions + 2)
release_last-tested_example = release_last-tested tested_runner refl refl refl

abbrev looping_runner : Runner
looping_runner = record tested_runner { running = true; phase = looping }

abbrev released_runner : Runner
released_runner = record looping_runner { references = 0; releasing = 1 }

reached : CarefulAccesses released_runner
reached =
    careful looping_runner _
      (careful tested_runner _
        (careful (record new_runner { references = 1; owned = true }) _
          (careful new_runner _ begun (add_first refl) ((λ h e. absurd (h refl)), (λ at e. cc)))
          (test_passes refl (λ e. omega (arith, e)))
          ((λ h e. absurd (omega (arith, e))), (λ at e. cc)))
        (set_running refl) ((λ h e. absurd (omega (arith, e))), (λ at e. cc)))
      (release_last refl) ((λ h e. inr (refl, inl refl)), (λ at e. cc))

CarefulAccesses-deletions_example :
    (released_runner.deletions ≤ 1)
    × ((released_runner.deletions ≡ 1)
        ⊎ (released_runner.owned ≡ false)
        ⊎ (released_runner.references ≢ 0)
        ⊎ (released_runner.releasing ≢ 0)
        ⊎ (released_runner.phase ≢ over))
CarefulAccesses-deletions_example = CarefulAccesses-deletions released_runner reached

five_seconds : curl_timer (pos 5000) ≡ restart 100000
unfolding curl_timer
five_seconds = refl

-- Handle 1 has a listener that keeps the handle for its owner, 2 one that throws; of the others the listener
-- cannot be read.
abbrev listeners : ℕ → Private
listeners curl =
    if curl == 1
    then listens (fun_listener true false true)
    else if curl == 2
    then listens (record (fun_listener true true true) { throws = true })
    else unreadable

abbrev new_loop : Loop
new_loop = record {
  queue = [];
  added = 1 ∷ 2 ∷ 3 ∷ [];
  private_of = listeners;
  called = [];
  removed = [];
  cleaned = [];
  deleted = [];
  errors = 0;
}

process-Times_example :
    (t : Loop) × (process (1 ∷ 2 ∷ 3 ∷ []) new_loop ≡ some t)
    × Times (λ curl. is_called (listeners curl)) (1 ∷ 2 ∷ 3 ∷ []) [] t.called
    × Times (λ curl. is_removed (listeners curl)) (1 ∷ 2 ∷ 3 ∷ []) [] t.removed
    × Times (λ curl. is_cleaned (listeners curl)) (1 ∷ 2 ∷ 3 ∷ []) [] t.cleaned
    × Times (λ curl. is_deleted (listeners curl)) (1 ∷ 2 ∷ 3 ∷ []) [] t.deleted
process-Times_example =
    process-Times (1 ∷ 2 ∷ 3 ∷ []) new_loop ((λ e. cc), ((λ e. cc), ((λ e. cc), tt)))
