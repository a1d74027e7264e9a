-- ===== src/Itoa/Tests.antt =====
-- The theorems of `itoa` at concrete values.
use libglim.Base.{◌≡◌, ◌++◌, arith}
use libglim.Base.Int.{negsuc}
use libglim.Itoa.{itoa}
use libglim.Itoa.Numeral.{numeral, magnitude, sign, itoa-numeral}

itoa-numeral_example :
    itoa (negsuc 254) 16 ≡ sign (negsuc 254) ++ numeral 64 (magnitude (negsuc 254)) 16
itoa-numeral_example = itoa-numeral (negsuc 254) 16 (omega arith) (omega arith) (omega arith)
