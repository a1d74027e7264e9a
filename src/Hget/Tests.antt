-- ===== src/Hget/Tests.antt =====
-- Requests to two and to many servers.
use libglim.Base.{
  ℕ, Bool, true, ◌≡◌, refl, some, List, [], ◌∷◌, ltb, if◌then◌else◌, replicate, arith,
}
use libglim.Hget.{
  Got, Answer, give_up, at_once, Until, until_start, retry, told_url, run_until, on_got, finished,
}
use libglim.Hget.Rounds.{InTurn, run_until-InTurn}

-- Three requests, unless one has the status 200.
abbrev three_times : Got → ℕ → ℕ → Answer ℕ
three_times got url num = if ltb num 3 then at_once else give_up

abbrev always : ℕ → ℕ → Bool
always num url = true

abbrev a_timer : ℕ → Bool
a_timer wait = true

abbrev refused : Got
refused = finished (some (0, []))

run_until-InTurn_example :
    (us : List ℕ) × (run_until always a_timer three_times
        (retry (until_start (10 ∷ 20 ∷ [])))
        (refused ∷ refused ∷ refused ∷ [])
      ≡ some us)
    × InTurn (10 ∷ 20 ∷ []) always a_timer three_times 0 (refused ∷ refused ∷ refused ∷ []) us
run_until-InTurn_example =
    run_until-InTurn (10 ∷ 20 ∷ []) always a_timer three_times (refused ∷ refused ∷ refused ∷ [])
      (omega arith) (omega arith) (omega arith)

three_asked :
    run_until always a_timer three_times
      (retry (until_start (10 ∷ 20 ∷ [])))
      (refused ∷ refused ∷ refused ∷ [])
    ≡ some (10 ∷ 20 ∷ 10 ∷ [])
unfolding run_until retry on_got told_url
three_asked = refl

-- 300 URLs, after 255 requests.
abbrev many : Until ℕ
many = record { urls = replicate 300 7; request_num = 255; next_url = 255 }
