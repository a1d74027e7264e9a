-- ===== src/Curl.antt =====
-- curl.hpp: the payload that a request sends, and what it gets. The calls of the callbacks are
-- libcurl's: lists of the sizes it asks for.
pub mod Transfer
pub mod Debug
pub mod Lines
pub mod Tests
use libglim.Base.{
  ℕ, zero, suc, ◌+◌, ◌-◌, ◌*◌, ◌%◌, ◌^◌, ◌≡◌, Bool, true, false, not, ◌&&◌, ◌||◌, Option, none,
  some, List, [], ◌∷◌, ◌++◌, ltb, leb, ◌==◌, if◌then◌else◌, length, min, slice,
}

-- The callback that `http` registers for the upload.
pub data Source : Type 0 where
  from_string from_gstring : Source

pub record Curl : Type 0 where
  pub send_str : List ℕ
  pub send_gstr : List ℕ
  pub sent : ℕ
  pub got : List ℕ
  pub upload : Option Source

-- send (STR&&)
unfoldable pub send : List ℕ → Curl → Curl
send text c = record c { send_str = text; send_gstr = []; sent = 0 }

-- send<gstring> (gstring&&)
unfoldable pub send_gstring : List ℕ → Curl → Curl
send_gstring text c = record c { send_str = []; send_gstr = text; sent = 0 }

-- http: the part that chooses the upload.
unfoldable pub http : Curl → Curl
http c =
    if not (length c.send_str == 0)
    then record c { upload = some from_string }
    else if not (length c.send_gstr == 0)
    then record c { upload = some from_gstring }
    else c

-- curlReadFromString and curlReadFromGString on the payload; none is a copy from outside of it. The
-- counter is a uint32_t.
unfoldable pub read_payload : List ℕ → ℕ → ℕ → Option (List ℕ × ℕ)
read_payload payload sent asked =
    let len = min ((length payload + 2 ^ 64 - sent) % 2 ^ 64) asked in
    if leb (sent + len) (length payload)
    then some (slice payload sent len, (sent + len) % 2 ^ 32)
    else none

abbrev pub payload_of : Curl → List ℕ
payload_of c = elim c.upload [
  | none ↦ []
  | some s ↦ elim s [ from_string ↦ c.send_str | from_gstring ↦ c.send_gstr ]
]

-- The bytes that the callback hands over when it is called with these sizes, and the curl after it.
unfoldable pub transfer : List ℕ → List ℕ → ℕ → Option (List ℕ × ℕ)
transfer payload [] sent = some ([], sent)
transfer payload (asked ∷ more) sent =
    first (read_payload payload sent asked) (transfer payload more)
  where
    joined : List ℕ → Option (List ℕ × ℕ) → Option (List ℕ × ℕ)
    joined bytes none = none
    joined bytes (some (rest, sent)) = some (bytes ++ rest, sent)

    first : Option (List ℕ × ℕ) → (ℕ → Option (List ℕ × ℕ)) → Option (List ℕ × ℕ)
    first none after = none
    first (some (bytes, sent)) after = joined bytes (after sent)

-- curlWriteToString
unfoldable pub write_to_string : List ℕ → Curl → Curl
write_to_string bytes c = record c { got = c.got ++ bytes }

-- go, up to the call of curl_easy_perform.
unfoldable pub go : Curl → Curl
go c = record c { got = [] }
