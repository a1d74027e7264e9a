-- ===== src/Runner/Lifetime.antt =====
-- runner.hpp: the life of a RunnerV2, as a step relation over single accesses to its counter and its flag
-- by its thread and by the threads that hold intrusive pointers to it.
use libglim.Base.{
  ℕ, suc, ◌+◌, ◌≤◌, ◌≡◌, ◌≢◌, refl, ◌⊎◌, inl, inr, Bool, true, false, ◌&&◌, ◌==◌, if◌then◌else◌,
  arith, Bool-cases, ℕ_discrete,
}

-- Where the thread stands in `run`: before the test of `_references`, before `_running = true`, in the
-- loop, behind it, before the `delete this` or the `_running = false` that it has decided on, and over.
pub data Phase : Type 0 where
  starting tested looping leaving deleting stopping over : Phase

-- `owned` says that the first pointer is made;
-- `releasing` threads have taken the counter to 0 and not read `_running` yet; `deletions` counts the
-- deletes of the object.
pub record Runner : Type 0 where
  pub references : ℕ
  pub running : Bool
  pub phase : Phase
  pub owned : Bool
  pub releasing : ℕ
  pub deletions : ℕ

-- RunnerV2()
abbrev pub new_runner : Runner
new_runner = record {
  references = 0;
  running = false;
  phase = starting;
  owned = false;
  releasing = 0;
  deletions = 0;
}

-- One access. A pointer is the first one, or is made of another one.
pub data Access (r : Runner) : Runner → Type 0 where
  add_first : r.owned ≡ false → Access r (record r { references = r.references + 1; owned = true })
  add_ref : r.references ≢ 0 → Access r (record r { references = r.references + 1 })
  -- intrusive_ptr_release, with the decrement that leaves references or none.
  release_some : (n : ℕ) → r.references ≡ suc (suc n) → Access r (record r { references = suc n })
  release_last :
      r.references ≡ 1 → Access r (record r { references = 0; releasing = r.releasing + 1 })
  -- `!runner->_running` and the delete.
  read_running :
      (n : ℕ)
      → r.releasing ≡ suc n
      → Access r
          (record r { releasing = n; deletions = r.deletions + (if r.running then 0 else 1) })
  -- The same when the object is deleted, where the read may give anything.
  read_freed :
      (n : ℕ)
      → (read : Bool) → r.releasing ≡ suc n
      → r.deletions ≢ 0
      → Access r (record r { releasing = n; deletions = r.deletions + (if read then 0 else 1) })
  -- `_references <= 0` throws.
  test_fails : r.phase ≡ starting → r.references ≡ 0 → Access r (record r { phase = leaving })
  test_passes : r.phase ≡ starting → r.references ≢ 0 → Access r (record r { phase = tested })
  set_running : r.phase ≡ tested → Access r (record r { running = true; phase = looping })
  loop_again : r.phase ≡ looping → r.references ≢ 0 → Access r r
  loop_ends : r.phase ≡ looping → r.references ≡ 0 → Access r (record r { phase = leaving })
  -- curl_multi_init or eventfd fails.
  run_throws : r.phase ≡ looping → Access r (record r { phase = leaving })
  -- `_running && _references == 0`, where only the thread writes `_running`.
  decides_delete :
      r.phase ≡ leaving
      → r.running && r.references == 0 ≡ true
      → Access r (record r { phase = deleting })
  decides_stop :
      r.phase ≡ leaving
      → r.running && r.references == 0 ≡ false
      → Access r (record r { phase = stopping })
  -- `delete this` and `_running = false`
  delete_this :
      r.phase ≡ deleting → Access r (record r { phase = over; deletions = r.deletions + 1 })
  stop_running : r.phase ≡ stopping → Access r (record r { running = false; phase = over })

-- Accesses one after the other.
pub data Accesses (r : Runner) : Runner → Type 0 where
  none_yet : Accesses r r
  then_one : (s t : Runner) → Accesses r s → Access s t → Accesses r t

-- With one pointer left and the thread between the test and `_running = true`, the accesses that follow
-- may delete the object twice: the release of the pointer does, and the thread again.
pub release_last-tested :
    (r : Runner)
    → r.references ≡ 1
    → r.phase ≡ tested
    → r.running ≡ false
    → (s : Runner) × Accesses r s × (s.deletions ≡ r.deletions + 2)
release_last-tested r one at idle =
    let released = record r { references = 0; releasing = r.releasing + 1 } in
    let gone = record released {
      releasing = r.releasing;
      deletions = r.deletions + (if r.running then 0 else 1);
    } in
    let runs = record gone { running = true; phase = looping } in
    let leaves = record runs { phase = leaving } in
    let decides = record leaves { phase = deleting } in
    (
      record decides { phase = over; deletions = gone.deletions + 1 },
      then_one decides _
          (then_one leaves _
            (then_one runs _
              (then_one gone _
                (then_one released _ (then_one r _ none_yet (release_last one))
                  (read_running r.releasing (omega arith)))
                (set_running at))
              (loop_ends refl refl))
            (decides_delete refl refl))
          (delete_this refl),
      rw idle (omega arith),
    )

-- The last pointer goes while the thread is in its loop, or has left it and not decided yet, or is over;
-- and the thread deletes the object while no release stands before its read of `_running`.
abbrev pub Careful : Runner → Runner → Type 0
Careful r s =
    (r.references ≢ 0
      → s.references ≡ 0
      → (r.phase ≡ over) ⊎ ((r.running ≡ true) × ((r.phase ≡ looping) ⊎ (r.phase ≡ leaving))))
    × (r.phase ≡ deleting → s.phase ≡ over → r.releasing ≡ 0)

pub data CarefulAccesses : Runner → Type 0 where
  begun : CarefulAccesses new_runner
  careful : (s t : Runner) → CarefulAccesses s → Access s t → Careful s t → CarefulAccesses t

Phase-discrete : Discrete Phase
Phase-discrete = hlevel

-- What holds of the counters in each phase.
record Inv (r : Runner) : Type 0 where
  held : r.references ≢ 0 → r.releasing + r.deletions ≡ 0
  unowned : r.owned ≡ false → r.releasing + r.deletions ≡ 0
  unowned_references : r.owned ≡ false → r.references ≡ 0
  idle_lives : r.running ≡ false → r.phase ≢ over → r.releasing + r.deletions ≡ 0
  idle_held : r.running ≡ false → r.phase ≢ over → r.owned ≡ true → r.references ≢ 0
  idle_few : r.running ≡ false → r.releasing + r.deletions ≤ 1
  idle_kept : r.running ≡ false → r.owned ≡ true → r.references ≡ 0 → r.releasing + r.deletions ≡ 1
  running_owned : r.running ≡ true → r.owned ≡ true
  tested_owned : r.phase ≡ tested → r.owned ≡ true
  running_lives : r.running ≡ true → r.phase ≢ over → r.deletions ≡ 0
  running_few : r.running ≡ true → r.phase ≢ over → r.releasing ≤ 1
  stopping_held : r.phase ≡ stopping → r.running ≡ true → r.references ≢ 0
  deleting_empty : r.phase ≡ deleting → r.references ≡ 0
  deleting_running : r.phase ≡ deleting → r.running ≡ true
  ended : r.running ≡ true → r.phase ≡ over → r.deletions ≡ 1
  ended_quiet : r.running ≡ true → r.phase ≡ over → r.releasing ≡ 0
  ended_empty : r.running ≡ true → r.phase ≡ over → r.references ≡ 0

new_runner-Inv : Inv new_runner
new_runner-Inv = ground arith

Access-Inv : (r s : Runner) → Access r s → Careful r s → Inv r → Inv s
Access-Inv r _ (add_first fresh) c inv = ground arith
Access-Inv r _ (add_ref there) c inv = ground arith
Access-Inv r _ (release_some n e) c inv = ground arith
Access-Inv r _ (release_last e) c inv = ground arith
Access-Inv r _ (read_running n e) c inv = ground arith
Access-Inv r _ (test_fails at e) c inv = ground arith
Access-Inv r _ (test_passes at e) c inv = ground arith
Access-Inv r _ (set_running at) c inv = ground arith
Access-Inv r _ (loop_again at e) c inv = inv
Access-Inv r _ (loop_ends at e) c inv = ground arith
Access-Inv r _ (read_freed n read e gone) c inv = ground arith
Access-Inv r _ (run_throws at) c inv = ground arith
Access-Inv r _ (decides_delete at e) c inv = ground arith
Access-Inv r _ (decides_stop at e) c inv = ground arith
Access-Inv r _ (delete_this at) c inv = ground arith
Access-Inv r _ (stop_running at) c inv = ground arith

CarefulAccesses-Inv : (r : Runner) → CarefulAccesses r → Inv r
CarefulAccesses-Inv _ begun = new_runner-Inv
CarefulAccesses-Inv r (careful s _ run step c) = Access-Inv s r step c (CarefulAccesses-Inv s run)

-- If the last pointer goes only while the thread is in its loop, or has left it and not decided yet, or
-- is over, and the thread deletes the object only while no release stands before its read of `_running`,
-- the object is deleted at most once; and it is deleted when the first pointer was made, no pointer is
-- left, every release is complete and the thread is over.
pub CarefulAccesses-deletions :
    (r : Runner)
    → CarefulAccesses r
    → (r.deletions ≤ 1)
      × ((r.deletions ≡ 1)
          ⊎ (r.owned ≡ false)
          ⊎ (r.references ≢ 0)
          ⊎ (r.releasing ≢ 0)
          ⊎ (r.phase ≢ over))
CarefulAccesses-deletions r run =
    let inv = CarefulAccesses-Inv r run in (at_most inv, gone (Phase-discrete r.phase over) inv)
  where
    at_most : Inv r → r.deletions ≤ 1
    at_most inv = elim (Bool-cases r.running) [
      | inl runs ↦ elim (Phase-discrete r.phase over) [
        | yes at ↦ omega (arith, inv.ended runs at)
        | no alive ↦ omega (arith, inv.running_lives runs alive)
      ]
      | inr idle ↦ omega (arith, inv.idle_few idle)
    ]

    gone :
        Dec (r.phase ≡ over)
        → Inv r
        → (r.deletions ≡ 1)
          ⊎ (r.owned ≡ false)
          ⊎ (r.references ≢ 0)
          ⊎ (r.releasing ≢ 0)
          ⊎ (r.phase ≢ over)
    gone (no alive) inv = inr (inr (inr (inr alive)))
    gone (yes at) inv = elim (Bool-cases r.owned) [
      | inr unowned ↦ inr (inl unowned)
      | inl owned ↦ elim (ℕ_discrete r.references 0) [
        | no held ↦ inr (inr (inl held))
        | yes none_held ↦ elim (ℕ_discrete r.releasing 0) [
          | no releasing ↦ inr (inr (inr (inl releasing)))
          | yes settled ↦ elim (Bool-cases r.running) [
            | inl runs ↦ inl (inv.ended runs at)
            | inr idle ↦ inl (omega (arith, inv.idle_kept idle owned none_held, settled))
          ]
        ]
      ]
    ]
