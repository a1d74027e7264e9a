-- ===== src/Exception/What.antt =====
-- The text of an exception.
use libglim.Base.{
  ℕ, ◌≡◌, refl, sym, ap, ◌∙◌, true, false, some, List, [], ◌∷◌, ◌++◌, if◌then◌else◌, Bool-cases,
  inl, inr,
}
use libglim.Base.Int.{pos}
use libglim.Itoa.{codes, itoa}
use libglim.Exception.{
  Exception, append_line, capture, construct, get_what, plain_what, capture_trace, is_nil,
}

nil_lem : (xs : List ℕ) → is_nil xs ≡ true → xs ≡ []
nil_lem [] h = refl
nil_lem (x ∷ xs) h = cc

abbrev fill : Exception → Exception
fill e = record e { what = append_line e e.what ++ e.message }

get_what-kept :
    (e : Exception)
    → plain_what e.options ≡ false
    → is_nil e.what ≡ false
    → get_what e ≡ (e.what, e)
unfolding get_what
get_what-kept e full there = rw (full, there) refl

get_what-filled :
    (e : Exception)
    → plain_what e.options ≡ false
    → is_nil e.what ≡ true
    → get_what e ≡ ((fill e).what, fill e)
unfolding get_what
get_what-filled e full blank = rw (full, blank) refl

get_what-plain : (e : Exception) → plain_what e.options ≡ true → get_what e ≡ (e.message, e)
unfolding get_what
get_what-plain e plain = rw plain refl

-- what() gives the same text again, and the second call leaves the object as it is.
pub get_what-stable : (e : Exception) → get_what (get_what e).1 ≡ get_what e
get_what-stable e = elim (Bool-cases (plain_what e.options)) [
  | inl plain ↦ ap (λ r. get_what r.1) (get_what-plain e plain)
  | inr full ↦ elim (Bool-cases (is_nil e.what)) [
    | inr there ↦ ap (λ r. get_what r.1) (get_what-kept e full there)
    | inl blank ↦
        let first = get_what-filled e full blank in
        elim (Bool-cases (is_nil (fill e).what)) [
          | inl empty ↦
              let same : fill e ≡ e =
                ap (λ w. record e { what = w }) (nil_lem _ empty ∙ sym (nil_lem _ blank)) in
              ap (λ r. get_what r.1) first ∙ ap get_what same
          | inr there ↦ ap (λ r. get_what r.1) first ∙ get_what-kept (fill e) full there ∙ sym first
        ]
  ]
]

-- The text of an exception with a file and a line: the plain message with PLAIN_WHAT, else the place and
-- the message, with the stack trace between them if it was captured.
pub get_what-construct :
    (trace message file : List ℕ) (line options : ℕ)
    → let place = b'[' ∷ [] ++ file ++ (b':' ∷ itoa (pos line) 10) ++ codes "] " in
      (get_what (construct trace message (some file) (pos line) options)).0 ≡ (
        if plain_what options
        then message
        else if capture_trace options
        then place ++ codes "[at " ++ trace ++ codes "] " ++ message
        else place ++ message)
unfolding get_what construct capture append_line
get_what-construct trace message file line options = elim (Bool-cases (capture_trace options)) [
  | inl traced ↦ elim (Bool-cases (plain_what options)) [
    | inl plain ↦ rw traced (rw plain refl)
    | inr full ↦ rw traced (rw full refl)
  ]
  | inr none_traced ↦ elim (Bool-cases (plain_what options)) [
    | inl plain ↦ rw none_traced (rw plain refl)
    | inr full ↦ rw none_traced (rw full refl)
  ]
]
