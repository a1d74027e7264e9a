-- ===== src/Sqlite/Sessions.antt =====
-- sqlite.hpp: the sessions of Sqlite and its mutex. A session is true as long as its `db` is not NULL;
-- sessions are constructed, copied, closed and destroyed in any order, each by the thread that owns it.
use libglim.Base.{
  ℕ, ◌+◌, ◌≡◌, refl, sym, ap, subst, ◌⊎◌, ◌∙◌, Bool, true, false, not, Option, none, some, List, [],
  ◌∷◌, ◌++◌, if◌then◌else◌, arith, Bool-cases, inl, inr,
}

-- Sqlite: whether its mutex is locked, and the sessions that there are.
pub record Sqlite : Type 0 where
  pub locked : Bool
  pub sessions : List Bool

-- SqliteSession (Sqlite*): none waits for the mutex.
unfoldable pub open_session : Sqlite → Option Sqlite
open_session s =
    if s.locked then none else some (record { locked = true; sessions = true ∷ s.sessions })

-- close, of a session between others.
unfoldable pub close : List Bool → Bool → List Bool → Sqlite → Sqlite
close before false after s = s
close before true after s = record { locked = false; sessions = before ++ false ∷ after }

-- ~SqliteSession
unfoldable pub destroy : List Bool → Bool → List Bool → Sqlite → Sqlite
unfolding close
destroy before session after s = record (close before session after s) {
  sessions = before ++ after;
}

-- Sqlite::exec, for the text of an error that sqlite3_exec gives or none: false is an exception, and the
-- session is destroyed in either case. none waits for the mutex.
unfoldable pub exec : Bool → Sqlite → Option (Bool × Sqlite)
unfolding open_session destroy
exec failed s = elim (open_session s) [
  | none ↦ none
  | some opened ↦ some (not failed, destroy [] true s.sessions opened)
]

pub data Step (s : Sqlite) : Sqlite → Type 0 where
  constructs : (t : Sqlite) → open_session s ≡ some t → Step s t
  -- The copy of a session is closed.
  copies : Step s (record s { sessions = false ∷ s.sessions })
  closes :
      (before after : List Bool) (session : Bool)
      → s.sessions ≡ before ++ session ∷ after
      → Step s (close before session after s)
  destroys :
      (before after : List Bool) (session : Bool)
      → s.sessions ≡ before ++ session ∷ after
      → Step s (destroy before session after s)
  executes : (failed done : Bool) (t : Sqlite) → exec failed s ≡ some (done, t) → Step s t

-- Sqlite (filename)
abbrev pub new_sqlite : Sqlite
new_sqlite = record { locked = false; sessions = [] }

pub data Reached : Sqlite → Type 0 where
  connected : Reached new_sqlite
  stepped : (s t : Sqlite) → Reached s → Step s t → Reached t

-- How many sessions are open.
unfoldable pub open_count : List Bool → ℕ
open_count [] = 0
open_count (session ∷ sessions) = (if session then 1 else 0) + open_count sessions

open_count-append : (a b : List Bool) → open_count (a ++ b) ≡ open_count a + open_count b
unfolding open_count
open_count-append [] b = omega arith
open_count-append (session ∷ a) b = omega (arith, open_count-append a b)

abbrev Locked : Sqlite → Type 0
Locked s = open_count s.sessions ≡ (if s.locked then 1 else 0)

count-between :
    (before after : List Bool) (session : Bool) (sessions : List Bool)
    → sessions ≡ before ++ session ∷ after
    → open_count sessions ≡ (if session then 1 else 0) + open_count (before ++ after)
unfolding open_count
count-between before after session sessions e =
    ap open_count e
    ∙ omega (arith, open_count-append before (session ∷ after), open_count-append before after)

some_injective : {A : Type 0} {x y : A} → some x ≡ some y → x ≡ y
some_injective e = cc

open_session-Locked : (s t : Sqlite) → open_session s ≡ some t → Locked s → Locked t
unfolding open_session open_count
open_session-Locked s t e l = elim (Bool-cases s.locked) [
  | inl busy ↦ absurd (waits (rw busy at e))
  | inr free ↦
      let none_open : open_count s.sessions ≡ 0 = l ∙ rw free refl in
      subst Locked (some_injective (rw free at e)) (omega (arith, none_open))
]
  where
    waits : {t : Sqlite} → none ≡ some t → ⊥
    waits e = cc

exec_lem :
    (failed : Bool) (s : Sqlite) → exec failed s ≡ (if s.locked then none else some (not failed, s))
unfolding exec open_session destroy close
exec_lem failed s = elim (Bool-cases s.locked) [ inl busy ↦ rw busy refl | inr free ↦ rw free refl ]

closed-Locked :
    (before after : List Bool) (s : Sqlite)
    → s.sessions ≡ before ++ true ∷ after
    → Locked s
    → open_count (before ++ after) ≡ 0
closed-Locked before after s e l = ground (arith, count-between before after true s.sessions e, l)

exec-Locked :
    (failed done : Bool) (s t : Sqlite) → exec failed s ≡ some (done, t) → Locked s → Locked t
exec-Locked failed done s t e l = elim (Bool-cases s.locked) [
  | inl busy ↦ absurd (waits (sym (exec_lem failed s ∙ rw busy refl) ∙ e))
  | inr free ↦
      let runs : exec failed s ≡ some (not failed, s) = exec_lem failed s ∙ rw free refl in
      let ends : ◌≡◌ {A = Bool × Sqlite} (not failed, s) (done, t) =
        some_injective (sym runs ∙ e) in
      subst Locked (ap (λ (p : Bool × Sqlite). p.1) ends) l
]
  where
    waits : {A : Type 0} {x : A} → none ≡ some x → ⊥
    waits e = cc

Step-Locked : (s t : Sqlite) → Step s t → Locked s → Locked t
unfolding close destroy open_count
Step-Locked s t (constructs _ e) l = open_session-Locked s t e l
Step-Locked s _ copies l = omega (arith, l)
Step-Locked s _ (closes before after false e) l = l
Step-Locked s _ (closes before after true e) l =
    count-between before after false (before ++ false ∷ after) refl
    ∙ omega (arith, closed-Locked before after s e l)
Step-Locked s _ (destroys before after false e) l =
    omega (arith, count-between before after false s.sessions e, l)
Step-Locked s _ (destroys before after true e) l = closed-Locked before after s e l
Step-Locked s t (executes failed done _ e) l = exec-Locked failed done s t e l

Reached-Locked : (s : Sqlite) → Reached s → Locked s
Reached-Locked _ connected = unfold open_count in refl
Reached-Locked t (stepped s _ run step) = Step-Locked s t step (Reached-Locked s run)

-- Whatever sessions were constructed, copied, closed and destroyed, one at most is open; as long as it is, exec and a
-- new session wait, and else exec leaves everything as it was, whether the query fails or not.
pub exec-Reached :
    (s : Sqlite) (failed : Bool)
    → Reached s
    → ((open_count s.sessions ≡ 1) × (open_session s ≡ none) × (exec failed s ≡ none))
      ⊎ ((open_count s.sessions ≡ 0) × (exec failed s ≡ some (not failed, s)))
unfolding open_session
exec-Reached s failed run = elim (Bool-cases s.locked) [
  | inl busy ↦
      inl (Reached-Locked s run ∙ rw busy refl, rw busy refl, exec_lem failed s ∙ rw busy refl)
  | inr free ↦ inr (Reached-Locked s run ∙ rw free refl, exec_lem failed s ∙ rw free refl)
]
