-- ===== src/Runner.antt =====
-- runner.hpp: the jobs of Runner and its timer. A std::unordered_map is a list in the order of its
-- iteration, which grows at its end; the keys are gstrings. Floats and what a job does are parameters.
pub mod Handlers
pub mod Loop
pub mod Freed
pub mod Finished
pub mod Lifetime
pub mod Due
pub mod Names
pub mod Tests
use mathlib.Core.List.{reverse}
use libglim.Base.{
  ℕ, zero, suc, ◌+◌, ◌-◌, ◌*◌, ◌%◌, ◌^◌, ◌≡◌, Bool, true, false, not, ◌&&◌, Option, none, some,
  List, [], ◌∷◌, ◌++◌, ltb, ◌==◌, if◌then◌else◌, min, is_some,
}
use libglim.Base.Int.{ℤ, pos, negsuc}
use libglim.Compare.{equals}
use libglim.Itoa.{itoa, codes}

-- struct timespec, from CLOCK_MONOTONIC.
pub record Timespec : Type 0 where
  pub sec : ℕ
  pub nsec : ℕ

-- float: what the code asks of it.
pub record Floats (F : Type 0) : Type 0 where
  pub one : F
  pub is_positive : F → Bool
  -- A NaN is neither positive nor at most 0.
  pub is_at_most_zero : F → Bool
  -- The seconds from one time to the other.
  pub elapsed : Timespec → Timespec → F
  pub at_least : F → F → Bool

-- Runner::JobInfo. `job` stands for the std::function; none is an empty one.
pub record JobInfo (F J : Type 0) : Type 0 where
  pub job : Option J
  pub pause_sec : F
  pub ran : Timespec

abbrev pub Jobs : Type 0 → Type 0 → Type 0
Jobs F J = List (List ℕ × JobInfo F J)

module _ {F J : Type 0} where
  unfoldable pub lookup : List ℕ → Jobs F J → Option (JobInfo F J)
  lookup name [] = none
  lookup name ((key, info) ∷ jobs) =
      let rest = lookup name jobs in if equals key name then some info else rest

  -- _jobs.erase (name)
  unfoldable pub erase : List ℕ → Jobs F J → Jobs F J
  erase name [] = []
  erase name ((key, info) ∷ jobs) =
      let rest = erase name jobs in if equals key name then rest else (key, info) ∷ rest

  -- _jobs[name] = f (_jobs[name]), where a new entry is `blank`.
  unfoldable pub update : JobInfo F J → List ℕ → (JobInfo F J → JobInfo F J) → Jobs F J → Jobs F J
  update blank name f [] = (name, f blank) ∷ []
  update blank name f ((key, info) ∷ jobs) =
      let rest = update blank name f jobs in
      if equals key name then (key, f info) ∷ jobs else (key, info) ∷ rest

  -- removeJob
  unfoldable pub remove_job : List ℕ → Jobs F J → Jobs F J
  unfolding erase
  remove_job name jobs = erase name jobs

-- The name that schedule (pauseSec, job) makes of a random number.
unfoldable pub job_name : ℕ → List ℕ
job_name random = codes "job" ++ itoa (pos random) 10

-- What a job answers.
pub data Answer : Type 0 where
  keep stop throws : Answer

-- A job's answer, and what it does to the table in the meantime. An empty std::function throws.
abbrev pub Calls : Type 0 → Type 0 → Type 0
Calls F J = J → JobInfo F J → Jobs F J → Answer × Jobs F J

module _ {F : Type 0} (fl : Floats F) {J : Type 0} where
  -- A new JobInfo.
  abbrev pub blank : JobInfo F J
  blank = record { job = none; pause_sec = fl.one; ran = record { sec = 0; nsec = 0 } }

  -- job (name): the table, whose entry the caller may change.
  unfoldable pub job : List ℕ → Jobs F J → Jobs F J
  unfolding update
  job name jobs = update blank name (λ info. info) jobs

  abbrev pub scheduled : F → J → Timespec → JobInfo F J → JobInfo F J
  scheduled pause f ct info = record info {
    job = some f;
    pause_sec = pause;
    ran = if fl.is_positive pause then ct else info.ran;
  }

  -- schedule (name, pauseSec, job), at the time `ct`.
  unfoldable pub schedule : List ℕ → F → J → Timespec → Jobs F J → Jobs F J
  unfolding update
  schedule name pause f ct jobs = update blank name (scheduled pause f ct) jobs

  -- schedule (pauseSec, job), with the numbers that rand gives; none is a run that is not over.
  unfoldable pub schedule_unnamed : List ℕ → F → J → Timespec → Jobs F J → Option (Jobs F J)
  unfolding job_name
  schedule_unnamed [] pause f ct jobs = none
  schedule_unnamed (random ∷ randoms) pause f ct jobs =
      let another = schedule_unnamed randoms pause f ct jobs in
      if is_some (lookup (job_name random) jobs)
      then another
      else some (schedule (job_name random) pause f ct jobs)

  -- shouldRun: whether the job runs, and what is left of its entry.
  unfoldable pub should_run : Timespec → JobInfo F J → Bool × JobInfo F J
  should_run ct info =
      if fl.is_at_most_zero info.pause_sec
      then (true, info)
      else if info.ran.sec == 0
      then (true, record info { ran = ct })
      else if fl.at_least (fl.elapsed info.ran ct) info.pause_sec
      then (true, record info { ran = ct })
      else (false, info)

  abbrev due_if : List ℕ → Bool × JobInfo F J → Jobs F J → Jobs F J
  due_if name (true, info) due = (name, info) ∷ due
  due_if name (false, info) due = due

  -- The loop of `run` over the jobs: the table with the new times, and the copies of the jobs to run.
  unfoldable pub collect : Timespec → Jobs F J → Jobs F J × Jobs F J
  unfolding should_run
  collect ct [] = ([], [])
  collect ct ((name, info) ∷ jobs) =
      let (rest, due) = collect ct jobs in
      let r = should_run ct info in ((name, r.1) ∷ rest, due_if name r due)

  abbrev call_job : Calls F J → JobInfo F J → Jobs F J → Answer × Jobs F J
  call_job calls info jobs = elim info.job [ none ↦ (throws, jobs) | some f ↦ calls f info jobs ]

  abbrev answered : List ℕ → Answer × Jobs F J → Jobs F J
  answered name (keep, jobs) = jobs
  answered name (stop, jobs) = erase name jobs
  answered name (throws, jobs) = jobs

  -- The loop of `run` over the copies, which are given in the order in which they run.
  unfoldable pub run_due : Calls F J → Jobs F J → Jobs F J → Jobs F J
  unfolding erase
  run_due calls [] jobs = jobs
  run_due calls ((name, info) ∷ due) jobs =
      run_due calls due (answered name (call_job calls info jobs))

  -- The jobs of `run`, the last one first.
  unfoldable pub run_jobs : Calls F J → Timespec → Jobs F J → Jobs F J
  unfolding collect run_due
  run_jobs calls ct jobs = let (table, due) = collect ct jobs in run_due calls (reverse due) table

-- What the libevent timer of a Runner is set to: seconds and microseconds.
abbrev pub Timer : Type 0
Timer = Option (ℕ × ℕ)

-- restartTimer; the argument is what event_pending gives.
unfoldable pub restart_timer : ℕ → Timer → Timer
restart_timer next none = some (0, next)
restart_timer next (some (s, usec)) =
    if s == 0 && ltb usec next then some (s, usec) else some (0, next)

-- What curlTimerCB does.
pub data TimerRequest : Type 0 where
  nothing call_now : TimerRequest
  restart : ℕ → TimerRequest

-- curlTimerCB, for a timeout in milliseconds.
unfoldable pub curl_timer : ℤ → TimerRequest
curl_timer (pos ms) = if ms == 0 then call_now else restart (min (ms % 2 ^ 32) 100 * 1000 % 2 ^ 32)
curl_timer (negsuc n) =
    if n == 0 then nothing else restart (min ((2 ^ 64 - suc n) % 2 ^ 32) 100 * 1000 % 2 ^ 32)
