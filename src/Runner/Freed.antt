-- ===== src/Runner/Freed.antt =====
-- What the loop of RunnerV2 frees, counted by handle.
use libglim.Base.{
  ℕ, ◌+◌, ◌≡◌, ◌≢◌, refl, sym, ap, subst, ◌∙◌, Bool, true, false, not, ◌&&◌, some, List, [], ◌∷◌,
  ◌==◌, if◌then◌else◌, arith, Bool-cases, inl, inr, ==_iff,
}
use libglim.Coroutine.Stacks.{count}
use libglim.Runner.Loop.{Private, unreadable, no_pointer, listens, Loop, push_if, informed, process}

-- What becomes of a handle whose message is read.
abbrev pub is_called : Private → Bool
is_called unreadable = false
is_called no_pointer = false
is_called (listens l) = true

abbrev pub is_removed : Private → Bool
is_removed unreadable = true
is_removed no_pointer = false
is_removed (listens l) = not l.throws && l.removes_curl

abbrev pub is_cleaned : Private → Bool
is_cleaned unreadable = true
is_cleaned no_pointer = false
is_cleaned (listens l) = not l.throws && l.cleans_curl

abbrev pub is_deleted : Private → Bool
is_deleted unreadable = false
is_deleted no_pointer = false
is_deleted (listens l) = not l.throws && l.deletes_listener

abbrev pub HasPointers : (ℕ → Private) → List ℕ → Type 0
HasPointers private_of [] = Unit
HasPointers private_of (curl ∷ messages) =
    (private_of curl ≢ no_pointer) × HasPointers private_of messages

-- As often as there is a message of the handle, if `asks`, and else not at all.
abbrev pub Times : (ℕ → Bool) → List ℕ → List ℕ → List ℕ → Type 0
Times asks messages before after =
    (curl : ℕ)
    → count curl after ≡ count curl before + (if asks curl then count curl messages else 0)

-- The record of one message.
record Informed (curl : ℕ) (s t : Loop) : Type 0 where
  same : t.private_of ≡ s.private_of
  called : t.called ≡ push_if (is_called (s.private_of curl)) curl s.called
  removed : t.removed ≡ push_if (is_removed (s.private_of curl)) curl s.removed
  cleaned : t.cleaned ≡ push_if (is_cleaned (s.private_of curl)) curl s.cleaned
  deleted : t.deleted ≡ push_if (is_deleted (s.private_of curl)) curl s.deleted

informed-Informed :
    (p : Private) (curl : ℕ) (s : Loop)
    → s.private_of curl ≡ p
    → p ≢ no_pointer
    → (t : Loop) × (informed p curl s ≡ some t) × Informed curl s t
informed-Informed unreadable curl s e h = (
  _,
  refl,
  record {
    same = refl;
    called = rw e refl;
    removed = rw e refl;
    cleaned = rw e refl;
    deleted = rw e refl;
  },
)
informed-Informed no_pointer curl s e h = absurd (h refl)
informed-Informed (listens l) curl s e h = elim (Bool-cases l.throws) [
  | inl fails ↦ rw fails (
    _,
    refl,
    record {
      same = refl;
      called = rw e refl;
      removed = rw (e, fails) refl;
      cleaned = rw (e, fails) refl;
      deleted = rw (e, fails) refl;
    },
  )
  | inr fine ↦ rw fine (
    _,
    refl,
    record {
      same = refl;
      called = rw e refl;
      removed = rw (e, fine) refl;
      cleaned = rw (e, fine) refl;
      deleted = rw (e, fine) refl;
    },
  )
]

count-push_if :
    (b : Bool) (curl m : ℕ) (curls : List ℕ)
    → count curl (push_if b m curls) ≡ count curl curls + (if b && curl == m then 1 else 0)
unfolding count
count-push_if true curl m curls = omega arith
count-push_if false curl m curls = omega arith

Times-cons :
    (asks : ℕ → Bool) (m : ℕ) (messages before between after : List ℕ)
    → between ≡ push_if (asks m) m before
    → Times asks messages between after
    → Times asks (m ∷ messages) before after
unfolding count
Times-cons asks m messages before between after e later curl =
    let first : count curl between ≡ count curl before + (if asks m && curl == m then 1 else 0) =
      ap (count curl) e ∙ count-push_if (asks m) curl m before in
    let rest = later curl in
    elim (Bool-cases (curl == m)) [
      | inl same ↦
          let asked : asks curl ≡ asks m = ap asks ((==_iff curl m).0 same) in
          ground (arith, first, rest, asked, same)
      | inr other ↦ ground (arith, first, rest, other)
    ]

-- If no handle whose message is read lacks its listener, the loop reads all the messages; each of them calls the
-- listener of its handle once, and the handle is removed and cleaned up and the listener deleted once for each
-- message, if its listener returns that option and does not throw, or, with no way to read the listener, the handle
-- is removed and cleaned up.
pub process-Times :
    (messages : List ℕ) (s : Loop)
    → HasPointers s.private_of messages
    → (t : Loop) × (process messages s ≡ some t)
      × Times (λ curl. is_called (s.private_of curl)) messages s.called t.called
      × Times (λ curl. is_removed (s.private_of curl)) messages s.removed t.removed
      × Times (λ curl. is_cleaned (s.private_of curl)) messages s.cleaned t.cleaned
      × Times (λ curl. is_deleted (s.private_of curl)) messages s.deleted t.deleted
unfolding process
process-Times [] s h =
    (s, refl, nothing _ s.called, nothing _ s.removed, nothing _ s.cleaned, nothing _ s.deleted)
  where
    nothing : (asks : ℕ → Bool) (curls : List ℕ) → Times asks [] curls curls
    nothing asks curls curl = unfold count in ground arith
process-Times (m ∷ messages) s (here, h) =
    let (n, e, i) = informed-Informed (s.private_of m) m s refl here in
    let (t, f, calls, removes, cleans, deletes) =
      process-Times messages n (subst (λ p. HasPointers p messages) (sym i.same) h) in
    let as_before : (asks : Private → Bool) (before after : List ℕ)
        → Times (λ curl. asks (n.private_of curl)) messages before after
        → Times (λ curl. asks (s.private_of curl)) messages before after =
      λ asks before after.
        subst (λ p. Times (λ curl. asks (p curl)) messages before after) i.same in
    (
      t,
      rw (e, f) refl,
      Times-cons _ m messages s.called n.called t.called i.called (as_before is_called _ _ calls),
      Times-cons _ m messages s.removed n.removed t.removed i.removed
          (as_before is_removed _ _ removes),
      Times-cons _ m messages s.cleaned n.cleaned t.cleaned i.cleaned
          (as_before is_cleaned _ _ cleans),
      Times-cons _ m messages s.deleted n.deleted t.deleted i.deleted
          (as_before is_deleted _ _ deletes),
    )
