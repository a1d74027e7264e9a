-- ===== src/Runner/Due.antt =====
-- Which jobs run, and what is left of them.
use libglim.Base.{
  ℕ, ◌≡◌, ◌≢◌, refl, sym, ap, ◌∙◌, ◌⊎◌, inl, inr, Bool, true, false, ◌&&◌, ◌||◌, Option, none, some,
  List, [], ◌∷◌, ◌++◌, if◌then◌else◌, Bool-cases, Option-cases, arith, ==_ne, ◌==◌,
}
use mathlib.Core.List.{reverse, reverse-cons}
use libglim.Compare.{equals}
use libglim.Compare.Order.{equals_refl, equals_iff}
use libglim.Runner.{
  Timespec, Floats, JobInfo, Jobs, lookup, blank, scheduled, schedule, job_name, schedule_unnamed,
  should_run, collect, due_if, Answer, keep, stop, throws, Calls, call_job, answered, run_due,
  run_jobs,
}
use libglim.Runner.Names.{lookup-erase, lookup-update, lookup-collect, collected, Unique}

abbrev pub is_stop : Answer → Bool
is_stop keep = false
is_stop stop = true
is_stop throws = false

module _ {F : Type 0} (fl : Floats F) {J : Type 0} (answer : J → JobInfo F J → Answer) where
  -- Jobs that leave the table alone.
  abbrev pub quiet : Calls F J
  quiet f info jobs = (answer f info, jobs)

  -- What a job answers; an empty one throws.
  abbrev pub answer_of : JobInfo F J → Answer
  answer_of info = elim info.job [ none ↦ throws | some f ↦ answer f info ]

  -- A job of this name says that it is to be removed.
  stopped : List ℕ → Jobs F J → Bool
  stopped name [] = false
  stopped name ((key, info) ∷ due) = equals key name && is_stop (answer_of info) || stopped name due

  stopped-append :
      (name : List ℕ) (due due' : Jobs F J)
      → stopped name (due ++ due') ≡ (stopped name due || stopped name due')
  unfolding stopped
  stopped-append name [] due' = refl
  stopped-append name ((key, info) ∷ due) due' = ground (arith, stopped-append name due due')

  stopped-reverse : (name : List ℕ) (due : Jobs F J) → stopped name (reverse due) ≡ stopped name due
  unfolding stopped
  stopped-reverse name [] = refl
  stopped-reverse name ((key, info) ∷ due) =
      ap (stopped name) (reverse-cons (key, info) due)
      ∙ stopped-append name (reverse due) ((key, info) ∷ [])
      ∙ rw (stopped-reverse name due) (ground arith)

  call_quiet :
      (info : JobInfo F J) (jobs : Jobs F J) → call_job fl quiet info jobs ≡ (answer_of info, jobs)
  call_quiet info jobs = elim (Option-cases info.job) [
    | inl nothing ↦ rw nothing refl
    | inr (f, e) ↦ rw e refl
  ]

  lookup-answered :
      (name key : List ℕ) (a : Answer) (jobs : Jobs F J)
      → lookup name (answered fl key (a, jobs))
        ≡ (if equals key name && is_stop a then none else lookup name jobs)
  lookup-answered name key keep jobs = ground arith
  lookup-answered name key stop jobs = lookup-erase key name jobs ∙ ground arith
  lookup-answered name key throws jobs = ground arith

  lookup-run_due :
      (name : List ℕ) (due jobs : Jobs F J)
      → lookup name (run_due fl quiet due jobs)
        ≡ (if stopped name due then none else lookup name jobs)
  unfolding run_due stopped
  lookup-run_due name [] jobs = refl
  lookup-run_due name ((key, info) ∷ due) jobs = rw (call_quiet info jobs) (
      rw (lookup-run_due name due (answered fl key (answer_of info, jobs)))
        (rw (lookup-answered name key (answer_of info) jobs) (ground arith)))

  -- Whether a job is due at the time `ct`: it has no pause, or never ran, or its pause is over.
  abbrev pub is_due : Timespec → JobInfo F J → Bool
  is_due ct info =
      fl.is_at_most_zero info.pause_sec
      || info.ran.sec == 0
      || fl.at_least (fl.elapsed info.ran ct) info.pause_sec

  -- The entry of a job that runs at the time `ct`, which a job without a pause does not keep.
  abbrev pub run_at : Timespec → JobInfo F J → JobInfo F J
  run_at ct info = if fl.is_at_most_zero info.pause_sec then info else record info { ran = ct }

  -- The entry that `run` leaves for a job: as it was if it is not due, none if it is to be removed.
  abbrev pub after_run : Timespec → Option (JobInfo F J) → Option (JobInfo F J)
  after_run ct none = none
  after_run ct (some info) =
      if is_due ct info
      then (if is_stop (answer_of (run_at ct info)) then none else some (run_at ct info))
      else some info

  should_run_lem :
      (ct : Timespec) (info : JobInfo F J)
      → should_run fl ct info ≡ (is_due ct info, if is_due ct info then run_at ct info else info)
  unfolding should_run
  should_run_lem ct info = elim (Bool-cases (fl.is_at_most_zero info.pause_sec)) [
    | inl always ↦ rw always refl
    | inr paused ↦ elim (Bool-cases (info.ran.sec == 0)) [
      | inl never ↦ rw (paused, never) refl
      | inr ran ↦ elim (Bool-cases (fl.at_least (fl.elapsed info.ran ct) info.pause_sec)) [
        | inl over ↦ rw (paused, ran, over) refl
        | inr waits ↦ rw (paused, ran, waits) refl
      ]
    ]
  ]

  abbrev stops : Timespec → Option (JobInfo F J) → Bool
  stops ct none = false
  stops ct (some info) = let r = should_run fl ct info in r.0 && is_stop (answer_of r.1)

  stopped-due_if :
      (name key : List ℕ) (r : Bool × JobInfo F J) (due : Jobs F J)
      → stopped name (due_if fl key r due)
        ≡ (equals key name && (r.0 && is_stop (answer_of r.1)) || stopped name due)
  unfolding stopped
  stopped-due_if name key (true, info) due = refl
  stopped-due_if name key (false, info) due = ground arith

  stopped-collect :
      (ct : Timespec) (name : List ℕ) (jobs : Jobs F J)
      → Unique jobs
      → stopped name (collect fl ct jobs).1 ≡ stops ct (lookup name jobs)
  unfolding collect lookup
  stopped-collect ct name [] u = unfold stopped in refl
  stopped-collect ct name ((key, info) ∷ jobs) (new, u) =
      stopped-due_if name key (should_run fl ct info) (collect fl ct jobs).1
      ∙ rw (stopped-collect ct name jobs u) (elim (Bool-cases (equals key name)) [
        | inl e ↦
            let q = (equals_iff key name).0 e in
            let gone : lookup name jobs ≡ none = ap (λ n. lookup n jobs) (sym q) ∙ new in
            rw (e, gone) (ground arith)
        | inr e ↦ rw e refl
      ])

  -- `run` at the time `ct` takes the jobs that are due, those with no pause, that never ran or whose pause is
  -- over, and sets their time to `ct` if they have a pause; it removes those that return false, and leaves
  -- the others, and those that throw, in the table. The jobs themselves leave the table alone, and no name
  -- stands twice in it.
  pub lookup-run_jobs :
      (ct : Timespec) (name : List ℕ) (jobs : Jobs F J)
      → Unique jobs
      → lookup name (run_jobs fl quiet ct jobs) ≡ after_run ct (lookup name jobs)
  unfolding run_jobs
  lookup-run_jobs ct name jobs u =
      lookup-run_due name (reverse (collect fl ct jobs).1) (collect fl ct jobs).0
      ∙ rw
          (
            stopped-reverse name (collect fl ct jobs).1,
            stopped-collect ct name jobs u,
            lookup-collect fl ct name jobs,
          )
          (left (lookup name jobs))
    where
      left :
          (o : Option (JobInfo F J))
          → (if stops ct o then none else collected fl ct o) ≡ after_run ct o
      left none = refl
      left (some info) =
          rw (should_run_lem ct info) (elim (Bool-cases (is_due ct info)) [
            | inl due ↦ rw due refl
            | inr waits ↦ rw waits refl
          ])

module _ {F : Type 0} (fl : Floats F) {J : Type 0} where
  paused_lem :
      (j : Option J) (pause : F) (t ct : Timespec)
      → fl.is_at_most_zero pause ≡ false
      → t.sec ≢ 0
      → should_run fl ct (record { job = j; pause_sec = pause; ran = t }) ≡ (
        fl.at_least (fl.elapsed t ct) pause,
        record {
          job = j;
          pause_sec = pause;
          ran = if fl.at_least (fl.elapsed t ct) pause then ct else t;
        },
      )
  unfolding should_run
  paused_lem j pause t ct there later =
      rw (there, ==_ne (t.sec) 0 later)
        (elim (Bool-cases (fl.at_least (fl.elapsed t ct) pause)) [
          | inl e ↦ rw e refl
          | inr e ↦ rw e refl
        ])

  -- A job that is scheduled with a pause, at a time past the clock's first second, runs at `ct` exactly if
  -- the pause is over since then, and its time is `ct` after that.
  pub should_run-schedule :
      (name : List ℕ) (pause : F) (f : J) (t ct : Timespec) (jobs : Jobs F J)
      → fl.is_positive pause ≡ true
      → fl.is_at_most_zero pause ≡ false
      → t.sec ≢ 0
      → (info : JobInfo F J) × (lookup name (schedule fl name pause f t jobs) ≡ some info)
        × (info.job ≡ some f)
        × ((should_run fl ct info).0 ≡ fl.at_least (fl.elapsed t ct) pause)
        × ((should_run fl ct info).1.ran ≡ (if fl.at_least (fl.elapsed t ct) pause then ct else t))
  unfolding schedule
  should_run-schedule name pause f t ct jobs there above later =
      let at_once = paused_lem (some f) pause t ct above later in
      (
        record { job = some f; pause_sec = pause; ran = t },
        lookup-update (blank fl) name name (scheduled fl pause f t) jobs
            ∙ rw (equals_refl name, there) refl,
        refl,
        ap (λ (r : Bool × JobInfo F J). r.0) at_once,
        ap (λ (r : Bool × JobInfo F J). r.1.ran) at_once,
      )

  -- One of the numbers gives a name that is not in the table.
  abbrev pub SomeNew : Jobs F J → List ℕ → Type 0
  SomeNew jobs [] = ⊥
  SomeNew jobs (random ∷ randoms) = (lookup (job_name random) jobs ≡ none) ⊎ SomeNew jobs randoms

  -- schedule without a name, if one of the random numbers gives a name that is not in the table, ends and
  -- is schedule with such a name.
  pub lookup-schedule_unnamed :
      (randoms : List ℕ) (pause : F) (f : J) (t : Timespec) (jobs : Jobs F J)
      → SomeNew jobs randoms
      → (name : List ℕ) × (lookup name jobs ≡ none)
        × (schedule_unnamed fl randoms pause f t jobs ≡ some (schedule fl name pause f t jobs))
  unfolding schedule_unnamed
  lookup-schedule_unnamed [] pause f t jobs some_new = absurd some_new
  lookup-schedule_unnamed (random ∷ randoms) pause f t jobs some_new =
      elim (Option-cases (lookup (job_name random) jobs)) [
        | inl free ↦ (job_name random, free, rw free refl)
        | inr (info, taken) ↦
            let (name, free, e) =
              lookup-schedule_unnamed randoms pause f t jobs (rest info taken some_new) in
            (name, free, rw taken e)
      ]
    where
      rest :
          (info : JobInfo F J)
          → lookup (job_name random) jobs ≡ some info
          → (lookup (job_name random) jobs ≡ none) ⊎ SomeNew jobs randoms
          → SomeNew jobs randoms
      rest info taken (inl free) = cc
      rest info taken (inr later) = later
