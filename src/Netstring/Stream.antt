-- ===== src/Netstring/Stream.antt =====
-- readNetstring on what appendNetstring wrote.
use native.Mathlib.Nat.{zero-add}
use libglim.Base.{
  ℕ, suc, ◌+◌, ◌^◌, ◌≤◌, ◌<◌, ◌≡◌, ◌≢◌, refl, ap, subst, ◌∙◌, false, some, List, ◌∷◌, ◌++◌, arith,
  take, drop, length, length-append, drop-append_left, take-append_left, lt→leb, le→ltb, ==_ne,
}
use libglim.Itoa.Numeral.{numeral}
use libglim.Netstring.{ok, is_digit, value, spaces, sign, read_length, read_netstring, encode}
use libglim.Netstring.Digits.{
  Digits, numeral_cons, numeral-Digits, value-numeral, digits-append, starts_plain,
}
use libglim.Netstring.Roundtrip.{encode_shape}

read_length-Digits :
    (d : ℕ) (ds : List ℕ) (c : ℕ) (rest : List ℕ)
    → Digits (d ∷ ds)
    → is_digit c ≡ false
    → value 0 (d ∷ ds) < 2 ^ 31
    → read_length (d ∷ ds ++ c ∷ rest) ≡ some (value 0 (d ∷ ds), c ∷ rest)
unfolding read_length spaces sign
read_length-Digits d ds c rest h stop small =
    let (space, minus, plus) = starts_plain d (h.0) in
    let skipped : drop (0 + suc (length ds)) (d ∷ ds ++ c ∷ rest) ≡ c ∷ rest =
      rw (zero-add (suc (length ds))) (drop-append_left (d ∷ ds) (c ∷ rest)) in
    rw space (
      rw (minus, plus)
        (rw (digits-append (d ∷ ds) c rest h stop) (rw (skipped, lt→leb _ _ small) (ground arith))))

read_netstring_lem :
    (own stream body xs post : List ℕ) (n : ℕ)
    → read_length stream ≡ some (n, b':' ∷ body)
    → n ≤ length body
    → length own + n < 2 ^ 24
    → drop n body ≡ b',' ∷ post
    → take n body ≡ xs
    → length xs ≡ n
    → read_netstring own stream ≡ ok (own ++ xs, post)
unfolding read_netstring
read_netstring_lem own stream body xs post n head enough small comma bytes size =
    let no_wrap : length own + length xs ≢ 2 ^ 24 = (λ e. omega (arith, e)) in
    rw (read_netstring, head)
      (rw (le→ltb (2 ^ 24) (length own + n) (omega arith), le→ltb (length body) n enough)
        (rw comma (rw bytes (rw (==_ne (length own + length xs) (2 ^ 24) no_wrap) refl))))

-- Reading a stream that starts with what appendNetstring wrote appends its payload to the string, and
-- leaves the stream behind it, if the string stays below 2 ^ 24 bytes.
pub read_netstring-encode :
    (own xs post : List ℕ)
    → length own + length xs < 2 ^ 24
    → read_netstring own (encode xs ++ post) ≡ ok (own ++ xs, post)
read_netstring-encode own xs post small = go (numeral_cons 63 (length xs))
  where
    go :
        (d : ℕ) × (ds : List ℕ) × (numeral 64 (length xs) 10 ≡ d ∷ ds)
        → read_netstring own (encode xs ++ post) ≡ ok (own ++ xs, post)
    go (d, ds, e) =
        let all : Digits (d ∷ ds) = subst Digits e (numeral-Digits 64 (length xs)) in
        let val : value 0 (d ∷ ds) ≡ length xs =
          subst (λ l. value 0 l ≡ length xs) e (value-numeral 63 (length xs) (omega arith)) in
        let body = xs ++ b',' ∷ post in
        rw (encode_shape xs post (d ∷ ds) (omega arith) e) (
          read_netstring_lem own (d ∷ ds ++ b':' ∷ body) body xs post (length xs)
            (read_length-Digits d ds b':' body all refl (omega arith)
              ∙ ap (λ (n : ℕ). some (n, b':' ∷ body)) val)
            (omega (arith, length-append xs (b',' ∷ post))) small
            (drop-append_left xs (b',' ∷ post)) (take-append_left xs (b',' ∷ post)) refl)
