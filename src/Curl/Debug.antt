-- ===== src/Curl/Debug.antt =====
-- curl.hpp: the headers of a request, and the text that debugListenerF makes of curl's debug messages.
use libglim.Base.{ℕ, ◌+◌, Bool, ◌&&◌, List, [], ◌∷◌, ◌++◌, ltb, ◌==◌, if◌then◌else◌, length}
use libglim.Itoa.{codes}

-- curl_infotype; `other` stands for CURLINFO_TEXT and the rest.
pub data InfoType : Type 0 where
  header_in header_out data_in data_out other : InfoType

-- The loop of `prepend` in debugListenerF, behind the first prefix.
unfoldable pub prepend_from : List ℕ → List ℕ → List ℕ
prepend_from prefix [] = []
prepend_from prefix (c ∷ after) =
    let rest = prepend_from prefix after in
    c ∷ (if c == 10 && ltb 2 (1 + length after) then prefix ++ rest else rest)

-- prepend
unfoldable pub prepend : List ℕ → List ℕ → List ℕ
unfolding prepend_from
prepend prefix bytes = prefix ++ prepend_from prefix bytes

-- The text that the listener of debugListenerF is given.
unfoldable pub debug_text : Bool → InfoType → List ℕ → List ℕ
unfolding prepend
debug_text with_data header_in bytes = prepend (codes "< ") bytes
debug_text with_data header_out bytes = prepend (codes "> ") bytes
debug_text with_data data_in bytes = if with_data then prepend (codes "< ") bytes else []
debug_text with_data data_out bytes = if with_data then prepend (codes "> ") bytes else []
debug_text with_data other bytes = []
