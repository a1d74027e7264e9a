-- ===== src/Sqlite.antt =====
-- sqlite.hpp: the statements of SqliteQuery and SqliteParQuery. SQLite itself is a parameter: a record
-- of operations on the state of the prepared statement and its database.
pub mod Fetch
pub mod Retry
pub mod Sessions
pub mod Tests
use libglim.Base.{
  ℕ, zero, suc, ◌+◌, ◌≡◌, Bool, true, false, Option, none, some, if◌then◌else◌, ◌==◌,
}

-- What sqlite3_step returns; `failed` is any other code.
pub data Code : Type 0 where
  row done busy schema failed : Code

pub record Engine (S : Type 0) : Type 0 where
  pub sqlite_step : S → Code × S
  pub sqlite_changes : S → ℕ
  pub sqlite_reset : S → S
  -- sqlite3_prepare_v2, the transfer of the bindings and the end of the old statement.
  pub prepare_again : S → Option S
  pub sqlite_bind : ℕ → ℕ → S → Option S
  pub sqlite_sleep : ℕ → S → S

-- `changes` is none for an mChanges of -1.
pub record Query (S : Type 0) : Type 0 where
  pub engine : S
  pub changes : Option ℕ
  pub bind_counter : ℕ

-- A call returns or throws, and leaves the query.
pub data Outcome (S A : Type 0) : Type 0 where
  returned : A → Query S → Outcome S A
  thrown : Query S → Outcome S A

module _ {S : Type 0} (E : Engine S) where
  abbrev stepped : Query S → S → Query S
  stepped q s = record q { engine = s }

  -- `mChanges = sqlite3_changes (*session); return false`
  abbrev finished : Query S → S → Query S
  finished q s = record q { engine = s; changes = some (E.sqlite_changes s) }

  -- SqliteQuery::step
  unfoldable pub step : Query S → Outcome S Bool
  step q = elim q.changes [
    | some n ↦ returned false (record q { changes = some 0 })
    | none ↦ after (E.sqlite_step q.engine)
  ]
    where
      after : Code × S → Outcome S Bool
      after (row, s) = returned true (stepped q s)
      after (done, s) = returned false (finished q s)
      after (busy, s) = thrown (stepped q s)
      after (schema, s) = thrown (stepped q s)
      after (failed, s) = thrown (stepped q s)

  -- SqliteQuery::qstep
  unfoldable pub qstep : Query S → Outcome S (Unit {0})
  unfolding step
  qstep q = after (step q)
    where
      after : Outcome S Bool → Outcome S (Unit {0})
      after (returned true r) = returned tt r
      after (returned false r) = thrown r
      after (thrown r) = thrown r

  -- SqliteQuery::ustep
  unfoldable pub ustep : Query S → Outcome S ℕ
  ustep q = after (E.sqlite_step q.engine)
    where
      after : Code × S → Outcome S ℕ
      after (done, s) = returned (E.sqlite_changes s) (finished q s)
      after (row, s) = returned 0 (stepped q s)
      after (busy, s) = thrown (stepped q s)
      after (schema, s) = thrown (stepped q s)
      after (failed, s) = thrown (stepped q s)

  -- SqliteQuery::reset
  unfoldable pub reset : Query S → Query S
  reset q = record { engine = E.sqlite_reset q.engine; changes = none; bind_counter = 0 }

  -- operator << (T value), for an integer.
  unfoldable pub bind_next : ℕ → Query S → Outcome S (Unit {0})
  bind_next value q =
      let index = q.bind_counter + 1 in
      elim (E.sqlite_bind index value q.engine) [
        | some s ↦ returned tt (record q { engine = s; bind_counter = index })
        | none ↦ thrown (record q { bind_counter = index })
      ]

  -- The loop of SqliteParQuery::step after SQLITE_BUSY; `left` is repeat + 1. It ends with the last code.
  unfoldable pub wait_busy : ℕ → ℕ → Code × S → Code × S
  wait_busy zero wait (code, s) = (code, s)
  wait_busy (suc left) wait (code, s) =
      let again = wait_busy left wait (E.sqlite_step (E.sqlite_sleep wait s)) in
      elim code [ busy ↦ again | other ↦ (other, s) ]

  -- SqliteParQuery::step, for a `repeat` and a `wait`; `rounds` bounds the number of jumps back to
  -- `repeat:`, and none is a run that is not over by then.
  unfoldable pub par_round : ℕ → ℕ → ℕ → Query S → Option (Outcome S Bool)
  unfolding wait_busy
  par_round zero repeat wait q = none
  par_round (suc rounds) repeat wait q =
      after (E.sqlite_step q.engine) (λ s. par_round rounds repeat wait (stepped q s))
    where
      prepared : Option S → S → (S → Option (Outcome S Bool)) → Option (Outcome S Bool)
      prepared none s again = some (thrown (stepped q s))
      prepared (some s') s again = again s'

      after : Code × S → (S → Option (Outcome S Bool)) → Option (Outcome S Bool)
      after (row, s) again = some (returned true (stepped q s))
      after (done, s) again = some (returned false (finished q s))
      after (schema, s) again = prepared (E.prepare_again s) s again
      after (busy, s) again = some (thrown (stepped q (wait_busy (suc repeat) wait (busy, s)).1))
      after (failed, s) again = some (thrown (stepped q s))

  unfoldable pub par_step : ℕ → ℕ → ℕ → Query S → Option (Outcome S Bool)
  par_step rounds repeat wait q = elim q.changes [
    | some n ↦ some (returned false (record q { changes = some 0 }))
    | none ↦ par_round rounds repeat wait q
  ]
