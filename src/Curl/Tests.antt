-- ===== src/Curl/Tests.antt =====
-- A payload of five bytes in calls for two, two and sixteen.
use libglim.Base.{◌≡◌, refl, true, false, none, some, [], ◌∷◌, arith}
use libglim.Itoa.{codes}
use libglim.Curl.{Curl, send, http, transfer, read_payload, payload_of}
use libglim.Curl.Debug.{header_in, header_out, data_in, data_out, debug_text, prepend, prepend_from}
use libglim.Curl.Lines.{lines, prefixed, NoShortLine, debug_text-lines}
use libglim.Curl.Transfer.{transfer-send}

abbrev fresh : Curl
fresh = record { send_str = []; send_gstr = []; sent = 0; got = []; upload = none }

transfer-send_example :
    let ready = http (send (codes "hello") fresh) in
    (transfer (payload_of ready) (2 ∷ 2 ∷ 16 ∷ []) ready.sent ≡ some (codes "hello", 5))
    × (read_payload (payload_of ready) 5 16 ≡ some ([], 5))
transfer-send_example =
    transfer-send (codes "hello") (2 ∷ 2 ∷ 16 ∷ []) 16 fresh (omega arith) (omega arith)
      (omega arith)

debug_text-lines_example :
    (debug_text false header_in (codes "GET\n\nab")
      ≡ prefixed (codes "< ") (lines (codes "GET\n\nab")))
    × (debug_text false header_out (codes "GET\n\nab")
        ≡ prefixed (codes "> ") (lines (codes "GET\n\nab")))
    × (debug_text true data_in (codes "GET\n\nab")
        ≡ prefixed (codes "< ") (lines (codes "GET\n\nab")))
    × (debug_text true data_out (codes "GET\n\nab")
        ≡ prefixed (codes "> ") (lines (codes "GET\n\nab")))
debug_text-lines_example = debug_text-lines false b'G' (codes "ET\n\nab") no_short
  where
    no_short : NoShortLine (codes "GET\n\nab")
    no_short = (
      λ e. omega (arith, e),
      (
        λ e. omega (arith, e),
        (
          λ e. omega (arith, e),
          (
            λ e f. omega (arith, f),
            (λ e f. omega (arith, f), (λ e. omega (arith, e), (λ e. omega (arith, e), tt))),
          ),
        ),
      ),
    )

-- A last line of one byte has no sign.
short_line : debug_text false header_in (codes "a\nb") ≡ codes "< a\nb"
unfolding debug_text prepend prepend_from
short_line = refl
