-- ===== src/Sqlite/Tests.antt =====
-- The theorems of the statements on an engine that plays back a list of codes.
use libglim.Base.{◌≡◌, refl, true, ◌⊎◌, false, none, some, List, [], ◌∷◌, arith}
use libglim.Sqlite.Sessions
use libglim.Sqlite.Sessions.{
  Sqlite, new_sqlite, connected, constructs, closes, open_session, close, exec, open_count,
  exec-Reached,
}
use libglim.Sqlite.{Code, row, done, schema, failed, Engine, Query, returned, step, par_step}
use libglim.Sqlite.Fetch.{no_more, one_more, fetch, fetch-Rows}
use libglim.Sqlite.Retry.{at_last, once_more, par_step-step}

abbrev play : List Code → Code × List Code
play [] = (failed, [])
play (c ∷ cs) = (c, cs)

abbrev playback : Engine (List Code)
playback = record {
  sqlite_step = play;
  sqlite_changes = λ s. 3;
  sqlite_reset = λ s. s;
  prepare_again = λ s. some s;
  sqlite_bind = λ i v s. some s;
  sqlite_sleep = λ wait s. s;
}

abbrev query : List Code → Query (List Code)
query codes = record { engine = codes; changes = none; bind_counter = 0 }

fetch-Rows_example :
    (fetch playback 5 0 (query (row ∷ row ∷ done ∷ []))
      ≡ some (2, record { engine = []; changes = some 3; bind_counter = 0 }))
    × (step playback (record { engine = []; changes = some 3; bind_counter = 0 })
        ≡ returned false (record { engine = []; changes = some 0; bind_counter = 0 }))
fetch-Rows_example =
    fetch-Rows playback 5 2 (query (row ∷ row ∷ done ∷ [])) [] refl
      (one_more 1 _ (row ∷ done ∷ []) refl (one_more 0 _ (done ∷ []) refl (no_more _ refl)))
      (omega arith)

par_step-step_example :
    par_step playback 4 90 20 (query (schema ∷ row ∷ [])) ≡ some (step playback (query (row ∷ [])))
par_step-step_example =
    par_step-step playback 4 90 20 1 (query (schema ∷ row ∷ [])) (row ∷ []) refl
      (once_more 0 _ (row ∷ []) (row ∷ []) refl refl at_last) (λ e. cc) (λ e. cc) (omega arith)

-- Two sessions one after the other; the first one is closed and still there.
abbrev second_open : Sqlite
second_open = record { locked = true; sessions = true ∷ false ∷ [] }

second_open-Reached : Sessions.Reached second_open
unfolding open_session close
second_open-Reached =
    Sessions.stepped (record { locked = false; sessions = false ∷ [] }) _
      (Sessions.stepped (record { locked = true; sessions = true ∷ [] }) _
        (Sessions.stepped new_sqlite _ connected (constructs _ refl)) (closes [] [] true refl))
      (constructs _ refl)

exec-Reached_example :
    ((open_count second_open.sessions ≡ 1)
      × (open_session second_open ≡ none)
      × (exec true second_open ≡ none))
    ⊎ ((open_count second_open.sessions ≡ 0) × (exec true second_open ≡ some (false, second_open)))
exec-Reached_example = exec-Reached second_open true second_open-Reached
