-- ===== src/Netstring/Roundtrip.antt =====
-- netstringAt on what appendNetstring wrote, and on a length that wraps the position around.
use libglim.Base.{
  ℕ, ◌+◌, ◌-◌, ◌%◌, ◌^◌, ◌≤◌, ◌<◌, ◌≡◌, refl, sym, ap, subst, ◌∙◌, List, [], ◌∷◌, ◌++◌,
  append_assoc, arith, get_or, drop, length, length-append, min, slice, drop-append_left,
  take-append_left, le→ltb, lt→leb, ==_refl,
}
use libglim.Base.Int.{ℤ, pos}
use libglim.Itoa.Numeral.{numeral, itoa-numeral}
use libglim.Netstring.{Span, ok, value, skip, strtol, body, netstring_at, encode}
use libglim.Netstring.Digits.{
  Digits, numeral_cons, numeral-Digits, value-numeral, length-numeral, skip-append, strtol-Digits,
}

get_or-append : (xs : List ℕ) (y : ℕ) (ys : List ℕ) → get_or (xs ++ y ∷ ys) (length xs) 0 ≡ y
get_or-append [] y ys = refl
get_or-append (x ∷ xs) y ys = get_or-append xs y ys

-- What lies at `pos`: some digits, the colon and the rest.
abbrev framed : List ℕ → List ℕ → List ℕ → List ℕ
framed pre ds rest = pre ++ (ds ++ b':' ∷ rest)

length-framed :
    (pre ds rest : List ℕ) → length (framed pre ds rest) ≡ length pre + length ds + 1 + length rest
length-framed pre ds rest =
    omega (arith, length-append pre (ds ++ b':' ∷ rest), length-append ds (b':' ∷ rest))

colon : (pre ds rest : List ℕ) → get_or (framed pre ds rest) (length pre + length ds) 0 ≡ b':'
colon pre ds rest =
    rw (← append_assoc pre ds (b':' ∷ rest), ← length-append pre ds)
      (get_or-append (pre ++ ds) b':' rest)

netstring_at_step :
    (source : List ℕ) (at next used : ℕ) (nlen : ℤ)
    → length source < 2 ^ 32
    → skip (drop at source) at (length source) ≡ next
    → strtol (drop at source) ≡ (nlen, used)
    → next < length source
    → get_or source next 0 ≡ b':'
    → next - at ≤ 10
    → at + used ≡ next
    → netstring_at source at ≡ body source (next + 1) nlen
unfolding netstring_at
netstring_at_step source at next used nlen fits stop number inside is_colon short end =
    let len : length source % 2 ^ 32 ≡ length source = omega arith in
    let start : (next + 1) % 2 ^ 32 ≡ next + 1 = omega arith in
    rw (len, stop, number)
      (rw (is_colon, le→ltb _ _ short, end, start, lt→leb _ _ inside) (rw (==_refl next) refl))

-- A header of one to ten digits is read, and what is left is the check of the body.
netstring_at_lem :
    (pre : List ℕ) (d : ℕ) (ds rest : List ℕ)
    → Digits (d ∷ ds)
    → length ds < 10
    → value 0 (d ∷ ds) < 2 ^ 63
    → length (framed pre (d ∷ ds) rest) < 2 ^ 32
    → netstring_at (framed pre (d ∷ ds) rest) (length pre)
      ≡ body (framed pre (d ∷ ds) rest) (length pre + length (d ∷ ds) + 1) (pos (value 0 (d ∷ ds)))
netstring_at_lem pre d ds rest h short small fits =
    let source = framed pre (d ∷ ds) rest in
    let total = length-framed pre (d ∷ ds) rest in
    let number : min (value 0 (d ∷ ds)) (2 ^ 63 - 1) ≡ value 0 (d ∷ ds) = omega arith in
    netstring_at_step source (length pre) (length pre + length (d ∷ ds)) (length (d ∷ ds))
      (pos (value 0 (d ∷ ds))) fits
      (rw (drop-append_left pre (d ∷ ds ++ b':' ∷ rest))
        (skip-append (d ∷ ds) b':' rest (length pre) (length source) h refl (omega (arith, total))))
      (rw (drop-append_left pre (d ∷ ds ++ b':' ∷ rest))
        (rw (strtol-Digits d ds b':' rest h refl, number) refl))
      (omega (arith, total)) (colon pre (d ∷ ds) rest) (omega arith) refl

-- The body check in front of a comma.
body_comma :
    (source : List ℕ) (start n next : ℕ)
    → length source < 2 ^ 32
    → n < 2 ^ 32
    → (start + n) % 2 ^ 32 ≡ next
    → next < length source
    → get_or source next 0 ≡ b','
    → start < 2 ^ 32
    → body source start (pos n) ≡ ok (record { start = start; size = n; after = next + 1 })
unfolding body
body_comma source start n next fits small wrapped inside comma begins =
    let len : length source % 2 ^ 32 ≡ length source = omega arith in
    let low : n % 2 ^ 32 ≡ n = omega arith in
    let size : (next + 2 ^ 32 - start) % 2 ^ 32 ≡ n = omega arith in
    let after : (next + 1) % 2 ^ 32 ≡ next + 1 = omega arith in
    rw (len, low, wrapped) (rw (comma, size, after, lt→leb _ _ inside) refl)

-- A length that leads past 2 ^ 32 and round to a comma is accepted: the payload is then longer than
-- the whole string.
pub netstring_at-overruns :
    (pre : List ℕ) (d : ℕ) (ds rest : List ℕ) (next : ℕ)
    → Digits (d ∷ ds)
    → length ds < 10
    → value 0 (d ∷ ds) < 2 ^ 32
    → length (pre ++ (d ∷ ds ++ b':' ∷ rest)) < 2 ^ 32
    → length pre + length (d ∷ ds) + 1 + value 0 (d ∷ ds) ≡ next + 2 ^ 32
    → next < length (pre ++ (d ∷ ds ++ b':' ∷ rest))
    → get_or (pre ++ (d ∷ ds ++ b':' ∷ rest)) next 0 ≡ b','
    → (sp : Span) × (netstring_at (pre ++ (d ∷ ds ++ b':' ∷ rest)) (length pre) ≡ ok sp)
      × (length (pre ++ (d ∷ ds ++ b':' ∷ rest)) < sp.start + sp.size)
netstring_at-overruns pre d ds rest next h short small fits wrapped inside comma =
    let source = framed pre (d ∷ ds) rest in
    let total = length-framed pre (d ∷ ds) rest in
    (
      _,
      netstring_at_lem pre d ds rest h short (omega arith) fits
          ∙ body_comma source _ (value 0 (d ∷ ds)) next fits small (omega arith) inside comma
              (omega (arith, total)),
      omega arith,
    )

-- Where the payload and the comma lie.
payload :
    (pre ds xs post : List ℕ)
    → slice (framed pre ds (xs ++ b',' ∷ post)) (length pre + length ds + 1) (length xs) ≡ xs
unfolding slice
payload pre ds xs post =
    let front = pre ++ (ds ++ b':' ∷ []) in
    let eq : framed pre ds (xs ++ b',' ∷ post) ≡ front ++ (xs ++ b',' ∷ post) =
      ap (λ r. pre ++ r) (sym (append_assoc ds (b':' ∷ []) _)) ∙ sym (append_assoc pre _ _) in
    let size : length pre + length ds + 1 ≡ length front =
      omega (arith, length-append pre (ds ++ b':' ∷ []), length-append ds (b':' ∷ [])) in
    rw (eq, size, drop-append_left front (xs ++ b',' ∷ post)) (take-append_left xs (b',' ∷ post))

comma_at :
    (pre ds xs post : List ℕ)
    → get_or (framed pre ds (xs ++ b',' ∷ post)) (length pre + length ds + 1 + length xs) 0 ≡ b','
comma_at pre ds xs post =
    let front = pre ++ (ds ++ b':' ∷ xs) in
    let eq : framed pre ds (xs ++ b',' ∷ post) ≡ front ++ b',' ∷ post =
      ap (λ r. pre ++ r) (sym (append_assoc ds (b':' ∷ xs) _)) ∙ sym (append_assoc pre _ _) in
    let size : length pre + length ds + 1 + length xs ≡ length front =
      omega (arith, length-append pre (ds ++ b':' ∷ xs), length-append ds (b':' ∷ xs)) in
    rw (eq, size) (get_or-append front b',' post)

encode_eq :
    (xs : List ℕ)
    → length xs < 2 ^ 31
    → encode xs ≡ numeral 64 (length xs) 10 ++ b':' ∷ [] ++ xs ++ b',' ∷ []
unfolding encode
encode_eq xs small =
    rw (itoa-numeral (pos (length xs)) 10 (omega arith) (omega arith) (omega arith)) refl

pub encode_shape :
    (xs post ds : List ℕ)
    → length xs < 2 ^ 31
    → numeral 64 (length xs) 10 ≡ ds
    → encode xs ++ post ≡ ds ++ b':' ∷ (xs ++ b',' ∷ post)
encode_shape xs post ds small e =
    rw (encode_eq xs small, e)
      (append_assoc (ds ++ b':' ∷ [] ++ xs) (b',' ∷ []) post
        ∙ append_assoc (ds ++ b':' ∷ []) xs (b',' ∷ post)
        ∙ append_assoc ds (b':' ∷ []) (xs ++ b',' ∷ post))

length-encode :
    (xs ds : List ℕ)
    → length xs < 2 ^ 31
    → numeral 64 (length xs) 10 ≡ ds
    → length (encode xs) ≡ length ds + length xs + 2
length-encode xs ds small e =
    rw (encode_eq xs small, e)
      (omega (
        arith,
        length-append (ds ++ b':' ∷ [] ++ xs) (b',' ∷ []),
        length-append (ds ++ b':' ∷ []) xs,
        length-append ds (b':' ∷ []),
      ))

-- Reading what appendNetstring wrote gives its payload and the position behind it.
pub netstring_at-encode :
    (pre xs post : List ℕ)
    → length xs < 2 ^ 31
    → length (pre ++ (encode xs ++ post)) < 2 ^ 32
    → (sp : Span) × (netstring_at (pre ++ (encode xs ++ post)) (length pre) ≡ ok sp)
      × (slice (pre ++ (encode xs ++ post)) (sp.start) (sp.size) ≡ xs)
      × (sp.after ≡ length pre + length (encode xs))
netstring_at-encode pre xs post small fits = go (numeral_cons 63 (length xs))
  where
    n : ℕ
    n = length xs

    go :
        (d : ℕ) × (ds : List ℕ) × (numeral 64 n 10 ≡ d ∷ ds)
        → (sp : Span) × (netstring_at (pre ++ (encode xs ++ post)) (length pre) ≡ ok sp)
          × (slice (pre ++ (encode xs ++ post)) (sp.start) (sp.size) ≡ xs)
          × (sp.after ≡ length pre + length (encode xs))
    go (d, ds, e) =
        let shape = encode_shape xs post (d ∷ ds) small e in
        let total = length-framed pre (d ∷ ds) (xs ++ b',' ∷ post) in
        let rest = length-append xs (b',' ∷ post) in
        let short : length (d ∷ ds) ≤ 10 =
          subst (λ l. length l ≤ 10) e (length-numeral 64 9 n (omega arith)) in
        let all : Digits (d ∷ ds) = subst Digits e (numeral-Digits 64 n) in
        let val : value 0 (d ∷ ds) ≡ n =
          subst (λ l. value 0 l ≡ n) e (value-numeral 63 n (omega arith)) in
        let room : length (framed pre (d ∷ ds) (xs ++ b',' ∷ post)) < 2 ^ 32 = rw shape at fits in
        rw shape (
          record {
            start = length pre + length (d ∷ ds) + 1;
            size = n;
            after = length pre + length (d ∷ ds) + 1 + n + 1;
          },
          netstring_at_lem pre d ds (xs ++ b',' ∷ post) all (omega arith) (omega arith) room
              ∙ rw val (
                  body_comma _ _ n (length pre + length (d ∷ ds) + 1 + n) room (omega arith)
                    (omega (arith, total, rest)) (omega (arith, total, rest))
                    (comma_at pre (d ∷ ds) xs post) (omega (arith, total, rest))),
          payload pre (d ∷ ds) xs post,
          omega (arith, length-encode xs (d ∷ ds) small e),
        )
