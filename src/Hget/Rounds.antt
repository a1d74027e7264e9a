-- ===== src/Hget/Rounds.antt =====
-- Which URLs goUntil asks, and which one it tells its handler of.
use native.Mathlib.Nat.{mod-lt, mod-eq_of_lt, mod-add-mod, mod-eq-sub-mod}
use libglim.Base.{
  ℕ, ◌+◌, ◌-◌, ◌%◌, ◌^◌, ◌≤◌, ◌<◌, ◌≡◌, refl, sym, ap, ◌∙◌, ◌⊎◌, inl, inr, Bool, Bool-cases, true,
  false, lt→ltb, Option, some, List, [], ◌∷◌, leb, ◌==◌, if◌then◌else◌, length, get_elem?,
  get_elem?-some, arith, dec_lt, lt→leb, ==_ne,
}
use libglim.Hget.{
  Got, Answer, give_up, at_once, after, Until, until_start, retry, told_url, on_got, run_until,
  react,
}

-- The URL of the n-th request, from 0 on.
abbrev pub turn : {U : Type 0} → List U → ℕ → Option U
turn urls n = get_elem? urls (n % length urls)

self_mod : (s : ℕ) → 0 < s → s % s ≡ 0
self_mod s pos_s =
    let none_left : s - s ≡ 0 = omega arith in
    mod-eq-sub-mod {n = s} {m = s} (omega arith)
    ∙ ap (λ (k : ℕ). k % s) none_left
    ∙ mod-eq_of_lt pos_s

mod_step :
    (n s : ℕ)
    → 0 < s
    → ((n % s + 1 < s) × ((n + 1) % s ≡ n % s + 1)) ⊎ ((n % s + 1 ≡ s) × ((n + 1) % s ≡ 0))
mod_step n s pos_s = elim (dec_lt (n % s + 1) s) [
  | yes h ↦ inl (h, sym (mod-add-mod n s 1) ∙ mod-eq_of_lt h)
  | no h ↦
      let full : n % s + 1 ≡ s = omega (arith, mod-lt n pos_s) in
      inr (full, sym (mod-add-mod n s 1) ∙ ap (λ (k : ℕ). k % s) full ∙ self_mod s pos_s)
]

-- `b` is the place after `a` in a round of `s`.
abbrev Follows : ℕ → ℕ → ℕ → Type 0
Follows a b s = ((a + 1 < s) × (b ≡ a + 1)) ⊎ ((a + 1 ≡ s) × (b ≡ 0))

next_url_lem :
    (a b s : ℕ)
    → s ≤ 2 ^ 8
    → Follows a b s
    → (if leb s ((a + 1) % 2 ^ 8) then 0 else (a + 1) % 2 ^ 8) ≡ b
next_url_lem a b s few (inl (h, e)) =
    let whole : (a + 1) % 2 ^ 8 ≡ a + 1 = omega arith in rw whole (rw (lt→leb s (a + 1) h) (sym e))
next_url_lem a b s few (inr (h, e)) = ground arith

told_index_lem :
    (a b s : ℕ)
    → s ≤ 2 ^ 8
    → Follows a b s
    → (if b == 0 then (s + 2 ^ 64 - 1) % 2 ^ 8 else b - 1) ≡ a
told_index_lem a b s few (inl (h, e)) =
    rw e (rw (==_ne (a + 1) 0 (λ q. omega (arith, q))) (omega arith))
told_index_lem a b s few (inr (h, e)) = rw e (omega arith)

module _ {U F : Type 0} (urls : List U) (goes : ℕ → U → Bool) (timer : F → Bool)
    (handler : Got → U → ℕ → Answer F) where
  -- The handler asks for another request, and a timer that it needs is made.
  abbrev pub GoesOn : Answer F → Type 0
  GoesOn give_up = ⊥
  GoesOn at_once = Unit
  GoesOn (after wait) = timer wait ≡ true

  abbrev pub NoTimer : Answer F → Type 0
  NoTimer give_up = ⊥
  NoTimer at_once = ⊥
  NoTimer (after wait) = timer wait ≡ false

  -- The requests from the n-th one on, against what is got: each is for the URL whose turn it is. It ends
  -- when go or the timer throws or when the handler, which is told of that URL and of the number of the
  -- request from 1 on, gives up; else there is another request.
  pub data InTurn : ℕ → List Got → List U → Type 0 where
    last : (n : ℕ) (u : U) → turn urls n ≡ some u → InTurn n [] (u ∷ [])
    go_throws :
        (n : ℕ) (u : U) (got : Got) (gots : List Got)
        → turn urls n ≡ some u
        → goes (n + 1) u ≡ false
        → InTurn n (got ∷ gots) (u ∷ [])
    stop :
        (n : ℕ) (u : U) (got : Got) (gots : List Got)
        → turn urls n ≡ some u
        → goes (n + 1) u ≡ true
        → handler got u (n + 1) ≡ give_up
        → InTurn n (got ∷ gots) (u ∷ [])
    timer_throws :
        (n : ℕ) (u : U) (got : Got) (gots : List Got)
        → turn urls n ≡ some u
        → goes (n + 1) u ≡ true
        → NoTimer (handler got u (n + 1))
        → InTurn n (got ∷ gots) (u ∷ [])
    more :
        (n : ℕ) (u : U) (got : Got) (gots : List Got) (us : List U)
        → turn urls n ≡ some u
        → goes (n + 1) u ≡ true
        → GoesOn (handler got u (n + 1))
        → InTurn (n + 1) gots us
        → InTurn n (got ∷ gots) (u ∷ us)

module _ {U : Type 0} (urls : List U) (some_url : 0 < length urls) (few : length urls ≤ 2 ^ 8) where
  -- The handler after n requests.
  abbrev pub after_requests : ℕ → Until U
  after_requests n = record { urls = urls; request_num = n; next_url = n % length urls }

  start_lem : until_start urls ≡ after_requests 0
  start_lem =
      ap (λ k. record { urls = urls; request_num = 0; next_url = k }) (sym (mod-eq_of_lt some_url))

  retry_lem :
      (n : ℕ) → n + 1 < 2 ^ 31 → retry (after_requests n) ≡ (after_requests (n + 1), turn urls n)
  unfolding retry
  retry_lem n small = rw (lt→ltb (n + 1) (2 ^ 31) small) (
      ap (λ k. (record { urls = urls; request_num = n + 1; next_url = k }, turn urls n))
        (next_url_lem (n % length urls) ((n + 1) % length urls) (length urls) few
          (mod_step n (length urls) some_url)))

  told_url_lem : (n : ℕ) → told_url (after_requests (n + 1)) ≡ turn urls n
  unfolding told_url
  told_url_lem n = ap (get_elem? urls) (
      told_index_lem (n % length urls) ((n + 1) % length urls) (length urls) few
        (mod_step n (length urls) some_url))

  turn-some : (n : ℕ) → (u : U) × (turn urls n ≡ some u)
  turn-some n = get_elem?-some urls (n % length urls) (mod-lt n some_url)

  module _ {F : Type 0} (goes : ℕ → U → Bool) (timer : F → Bool)
      (handler : Got → U → ℕ → Answer F) where
    on_got_lem :
        (n : ℕ) (u : U) (got : Got)
        → turn urls n ≡ some u
        → on_got handler (after_requests (n + 1)) got
          ≡ some (react (handler got u (n + 1)) (after_requests (n + 1)))
    unfolding on_got
    on_got_lem n u got e = rw (on_got, told_url_lem n) (rw e refl)

    answered :
        (n : ℕ) (got : Got) (gots : List Got) (u : U) (us : List U)
        → turn urls n ≡ some u
        → goes (n + 1) u ≡ true
        → run_until goes timer handler (retry (after_requests (n + 1))) gots ≡ some us
        → InTurn urls goes timer handler (n + 1) gots us
        → (answer : Answer F) → handler got u (n + 1) ≡ answer
        → (vs : List U) × (run_until goes timer handler
              (after_requests (n + 1), some u)
              (got ∷ gots)
            ≡ some vs)
          × InTurn urls goes timer handler n (got ∷ gots) vs
    unfolding run_until on_got told_url
    answered n got gots u us e sent rest there give_up given =
        (u ∷ [], rw (sent, on_got_lem n u got e) (rw given refl), stop n u got gots e sent given)
    answered n got gots u us e sent rest there at_once given = (
      u ∷ us,
      rw (sent, on_got_lem n u got e) (rw (given, rest) refl),
      more n u got gots us e sent (rw given tt) there,
    )
    answered n got gots u us e sent rest there (after wait) given = elim (Bool-cases (timer wait)) [
      | inl made ↦ (
        u ∷ us,
        rw (sent, on_got_lem n u got e) (rw (given, made, rest) refl),
        more n u got gots us e sent (rw given made) there,
      )
      | inr failed ↦ (
        u ∷ [],
        rw (sent, on_got_lem n u got e) (rw (given, failed) refl),
        timer_throws n u got gots e sent (rw given failed),
      )
    ]

    requested :
        (n : ℕ) (got : Got) (gots : List Got) (u : U) (us : List U)
        → turn urls n ≡ some u
        → run_until goes timer handler (retry (after_requests (n + 1))) gots ≡ some us
        → InTurn urls goes timer handler (n + 1) gots us
        → (vs : List U) × (run_until goes timer handler
              (after_requests (n + 1), some u)
              (got ∷ gots)
            ≡ some vs)
          × InTurn urls goes timer handler n (got ∷ gots) vs
    unfolding run_until
    requested n got gots u us e rest there = elim (Bool-cases (goes (n + 1) u)) [
      | inl sent ↦ answered n got gots u us e sent rest there (handler got u (n + 1)) refl
      | inr threw ↦ (u ∷ [], rw threw refl, go_throws n u got gots e threw)
    ]

    run_until_lem :
        (n : ℕ) (gots : List Got)
        → n + length gots + 1 < 2 ^ 31
        → (us : List U) × (run_until goes timer handler (retry (after_requests n)) gots ≡ some us)
          × InTurn urls goes timer handler n gots us
    run_until_lem n [] small =
        let (u, e) = turn-some n in
        (u ∷ [], rw (retry_lem n (omega arith)) (rw e (unfold run_until in refl)), last n u e)
    run_until_lem n (got ∷ gots) small =
        let (u, e) = turn-some n in
        let (us, rest, there) = run_until_lem (n + 1) gots (omega arith) in
        rw (retry_lem n (omega arith)) (rw e (requested n got gots u us e rest there))

-- Of at most 256 URLs, goUntil asks one after the other and then the first one again, until the handler
-- gives up or go or event_base_once throws; it tells the handler of the URL that was asked and of the
-- number of the request. The handler does not throw, and there are fewer than 2 ^ 31 requests.
pub run_until-InTurn :
    {U F : Type 0} (urls : List U) (goes : ℕ → U → Bool) (timer : F → Bool)
    (handler : Got → U → ℕ → Answer F) (gots : List Got)
    → 0 < length urls
    → length urls ≤ 2 ^ 8
    → length gots + 1 < 2 ^ 31
    → (us : List U) × (run_until goes timer handler (retry (until_start urls)) gots ≡ some us)
      × InTurn urls goes timer handler 0 gots us
run_until-InTurn urls goes timer handler gots some_url few small =
    let first = start_lem urls some_url few in
    rw first (run_until_lem urls some_url few goes timer handler 0 gots (omega arith))

-- Of more than 256 URLs, the 256th request asks the last URL that goUntil knows and is followed by the first
-- one; its handler is told of another URL, whose place is that of the last one modulo 256.
pub retry-wraps :
    {U : Type 0} (h : Until U)
    → 2 ^ 8 < length h.urls
    → h.next_url ≡ 255
    → h.request_num + 2 < 2 ^ 31
    → ((retry h).1 ≡ get_elem? h.urls 255)
      × (told_url (retry h).0 ≡ get_elem? h.urls ((length h.urls - 1) % 2 ^ 8))
      × ((retry (retry h).0).1 ≡ get_elem? h.urls 0)
unfolding retry told_url
retry-wraps h many e small =
    let round : (h.next_url + 1) % 2 ^ 8 ≡ 0 = omega (arith, e) in
    let open_end : leb (length h.urls) 0 ≡ false = ground arith in
    (
      rw (lt→ltb (h.request_num + 1) (2 ^ 31) (omega arith)) (ap (get_elem? h.urls) e),
      rw (round, open_end) (ap (get_elem? h.urls) (omega arith)),
      rw (lt→ltb (h.request_num + 1 + 1) (2 ^ 31) (omega arith), round, open_end) refl,
    )
