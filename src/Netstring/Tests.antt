-- ===== src/Netstring/Tests.antt =====
-- The netstring theorems at concrete strings.
use libglim.Base.{◌+◌, ◌≡◌, ◌++◌, arith, length, slice}
use libglim.Itoa.{itoa, codes}
use libglim.Netstring.{encode, read_netstring, netstring_at, ok, Span}
use libglim.Netstring.Stream.{read_netstring-encode}
use libglim.Netstring.Roundtrip.{netstring_at-encode}

netstring_at-encode_example :
    let text = codes "x" ++ (encode (codes "hello") ++ codes "y") in
    (sp : Span) × (netstring_at text 1 ≡ ok sp)
    × (slice text (sp.start) (sp.size) ≡ codes "hello")
    × (sp.after ≡ 1 + length (encode (codes "hello")))
unfolding encode itoa
netstring_at-encode_example =
    netstring_at-encode (codes "x") (codes "hello") (codes "y") (omega arith) (omega arith)

read_netstring-encode_example :
    read_netstring (codes "ab") (encode (codes "hello") ++ codes "y")
    ≡ ok (codes "ab" ++ codes "hello", codes "y")
read_netstring-encode_example =
    read_netstring-encode (codes "ab") (codes "hello") (codes "y") (omega arith)
