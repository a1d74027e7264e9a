-- ===== src/Curl/Lines.antt =====
-- The debug text in lines.
use libglim.Base.{
  ℕ, ◌+◌, ◌≡◌, ◌≢◌, refl, sym, ap, ◌∙◌, Bool, true, List, [], ◌∷◌, ◌++◌, ltb, ◌==◌, if◌then◌else◌,
  length, arith, lt→ltb, ==_iff, Bool-cases, inl, inr,
}
use libglim.Itoa.{codes}
use libglim.Curl.Debug.{header_in, header_out, data_in, data_out, prepend_from, prepend, debug_text}

-- A byte before the first line.
abbrev on_first : ℕ → List (List ℕ) → List (List ℕ)
on_first c [] = (c ∷ []) ∷ []
on_first c (line ∷ more) = (c ∷ line) ∷ more

-- The lines of a text, each with its newline; the last one may have none.
unfoldable pub lines : List ℕ → List (List ℕ)
lines [] = []
lines (c ∷ after) = let rest = lines after in if c == 10 then (c ∷ []) ∷ rest else on_first c rest

-- The lines with a prefix before each.
unfoldable pub prefixed : List ℕ → List (List ℕ) → List ℕ
prefixed prefix [] = []
prefixed prefix (line ∷ more) = prefix ++ (line ++ prefixed prefix more)

-- No newline stands before the last byte.
abbrev pub NoShortLine : List ℕ → Type 0
NoShortLine [] = Unit
NoShortLine (c ∷ after) = (c ≡ 10 → length after ≢ 1) × NoShortLine after

-- The first line without a prefix.
unfoldable joined : List ℕ → List (List ℕ) → List ℕ
joined prefix [] = []
joined prefix (line ∷ more) = line ++ prefixed prefix more

joined-on_first :
    (prefix : List ℕ) (c : ℕ) (ls : List (List ℕ))
    → joined prefix (on_first c ls) ≡ c ∷ joined prefix ls
unfolding joined prefixed
joined-on_first prefix c [] = refl
joined-on_first prefix c (line ∷ more) = refl

prefixed-on_first :
    (prefix : List ℕ) (c : ℕ) (ls : List (List ℕ))
    → prefixed prefix (on_first c ls) ≡ prefix ++ joined prefix (on_first c ls)
unfolding joined prefixed
prefixed-on_first prefix c [] = refl
prefixed-on_first prefix c (line ∷ more) = refl

prefixed-lines :
    (prefix : List ℕ) (c : ℕ) (after : List ℕ)
    → prefixed prefix (lines (c ∷ after)) ≡ prefix ++ joined prefix (lines (c ∷ after))
unfolding lines
prefixed-lines prefix c after = elim (Bool-cases (c == 10)) [
  | inl e ↦ rw e (unfold prefixed joined in refl)
  | inr e ↦ rw e (prefixed-on_first prefix c (lines after))
]

behind_newline :
    (prefix after rest : List ℕ)
    → length after ≢ 1
    → rest ≡ joined prefix (lines after)
    → (if ltb 2 (1 + length after) then prefix ++ rest else rest) ≡ prefixed prefix (lines after)
behind_newline prefix [] rest h e = e ∙ (unfold joined lines prefixed in refl)
behind_newline prefix (d ∷ after) rest h e =
    rw (lt→ltb 2 (1 + length (d ∷ after)) (omega (arith, h)))
      (ap (λ l. prefix ++ l) e ∙ sym (prefixed-lines prefix d after))

prepend_from-lines :
    (prefix text : List ℕ)
    → NoShortLine text
    → prepend_from prefix text ≡ joined prefix (lines text)
unfolding prepend_from lines
prepend_from-lines prefix [] h = unfold joined in refl
prepend_from-lines prefix (c ∷ after) (h, hs) = elim (Bool-cases (c == 10)) [
  | inl e ↦ rw e (
      ap (λ l. c ∷ l)
        (behind_newline prefix after _ (h ((==_iff c 10).0 e)) (prepend_from-lines prefix after hs))
      ∙ (unfold joined in refl))
  | inr e ↦ rw e (
      ap (λ l. c ∷ l) (prepend_from-lines prefix after hs)
      ∙ sym (joined-on_first prefix c (lines after)))
]

-- The debug text of headers, and of data if they are wanted, is their lines, each behind the sign of its
-- direction, if there are any bytes and no newline stands just before the last one.
pub debug_text-lines :
    (with_data : Bool) (c : ℕ) (after : List ℕ)
    → NoShortLine (c ∷ after)
    → (debug_text with_data header_in (c ∷ after) ≡ prefixed (codes "< ") (lines (c ∷ after)))
      × (debug_text with_data header_out (c ∷ after) ≡ prefixed (codes "> ") (lines (c ∷ after)))
      × (debug_text true data_in (c ∷ after) ≡ prefixed (codes "< ") (lines (c ∷ after)))
      × (debug_text true data_out (c ∷ after) ≡ prefixed (codes "> ") (lines (c ∷ after)))
unfolding debug_text prepend
debug_text-lines with_data c after h = (in_lines _, in_lines _, in_lines _, in_lines _)
  where
    in_lines : (prefix : List ℕ) → prepend prefix (c ∷ after) ≡ prefixed prefix (lines (c ∷ after))
    in_lines prefix =
        ap (λ l. prefix ++ l) (prepend_from-lines prefix (c ∷ after) h)
        ∙ sym (prefixed-lines prefix c after)
