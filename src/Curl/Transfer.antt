-- ===== src/Curl/Transfer.antt =====
-- The payload is sent once, in order and whole.
use libglim.Base.{
  ℕ, ◌+◌, ◌-◌, ◌%◌, ◌^◌, ◌≤◌, ◌<◌, ◌≡◌, refl, ap, ◌∙◌, some, List, [], ◌∷◌, ◌++◌, arith, length,
  min, slice, slice-join, take_all, le→leb, ==_ne,
}
use libglim.Curl.{Curl, read_payload, transfer, send, http, payload_of}

-- How many bytes these calls ask for.
abbrev pub total : List ℕ → ℕ
total [] = 0
total (n ∷ ns) = n + total ns

read_payload_lem :
    (payload : List ℕ) (sent asked : ℕ)
    → sent ≤ length payload
    → length payload < 2 ^ 32
    → read_payload payload sent asked
      ≡ some (
        slice payload sent (min (length payload - sent) asked),
        min (length payload) (sent + asked),
      )
unfolding read_payload
read_payload_lem payload sent asked inside small =
    let left : (length payload + 2 ^ 64 - sent) % 2 ^ 64 ≡ length payload - sent = omega arith in
    let next : (sent + min (length payload - sent) asked) % 2 ^ 32
        ≡ min (length payload) (sent + asked) =
      omega arith in
    let fits : sent + min (length payload - sent) asked ≤ length payload = omega arith in
    rw (left, le→leb _ _ fits) (rw next refl)

-- Calls that ask for `total asked` bytes hand over that many of the bytes left, or all of them.
pub transfer_lem :
    (payload asked : List ℕ) (sent : ℕ)
    → sent ≤ length payload
    → length payload < 2 ^ 32
    → transfer payload asked sent
      ≡ some (
        slice payload sent (min (length payload - sent) (total asked)),
        min (length payload) (sent + total asked),
      )
unfolding transfer
transfer_lem payload [] sent inside small =
    let none_asked : min (length payload - sent) 0 ≡ 0 = omega arith in
    let stays : min (length payload) (sent + 0) ≡ sent = omega arith in
    unfold slice in rw (none_asked, stays) refl
transfer_lem payload (n ∷ more) sent inside small =
    let here = min (length payload - sent) n in
    let next = min (length payload) (sent + n) in
    let reached : next ≡ sent + here = omega arith in
    let later : min (length payload - next) (total more) + here
        ≡ min (length payload - sent) (n + total more) =
      omega arith in
    let end : min (length payload) (next + total more)
        ≡ min (length payload) (sent + (n + total more)) =
      omega arith in
    let rest = transfer_lem payload more next (omega arith) small in
    let bytes : slice payload sent here
          ++ slice payload next (min (length payload - next) (total more))
        ≡ slice payload sent (min (length payload - sent) (n + total more)) =
      ap
        (λ k. slice payload sent here ++ slice payload k (min (length payload - next) (total more)))
        reached
      ∙ slice-join payload sent here (min (length payload - next) (total more))
      ∙ ap (slice payload sent) (
          let sum : here + min (length payload - next) (total more)
              ≡ min (length payload - sent) (n + total more) =
            omega arith in
          sum) in
    rw (read_payload_lem payload sent n inside small) (rw rest (rw (bytes, end) refl))

slice_whole : {A : Type 0} (xs : List A) → slice xs 0 (length xs) ≡ xs
unfolding slice
slice_whole xs = take_all xs

-- After `send` and `http`, calls that ask for enough bytes hand over the payload, whole and in order, and
-- every further call gets nothing. The payload has fewer than 2 ^ 32 bytes.
pub transfer-send :
    (text asked : List ℕ) (n : ℕ) (c : Curl)
    → 1 ≤ length text
    → length text < 2 ^ 32
    → length text ≤ total asked
    → let ready = http (send text c) in
      (transfer (payload_of ready) asked ready.sent ≡ some (text, length text))
      × (read_payload (payload_of ready) (length text) n ≡ some ([], length text))
unfolding http send
transfer-send text asked n c some_bytes small enough =
    let all : min (length text - 0) (total asked) ≡ length text = omega arith in
    let end : min (length text) (0 + total asked) ≡ length text = omega arith in
    let over : min (length text - length text) n ≡ 0 = omega arith in
    let stays : min (length text) (length text + n) ≡ length text = omega arith in
    rw (==_ne (length text) 0 (λ e. omega (arith, e))) (
      transfer_lem text asked 0 (omega arith) small
          ∙ rw (all, end) (ap (λ l. some (l, length text)) (slice_whole text)),
      read_payload_lem text (length text) n (omega arith) small
          ∙ unfold slice in rw (over, stays) refl,
    )
