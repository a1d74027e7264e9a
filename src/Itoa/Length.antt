-- ===== src/Itoa/Length.antt =====
-- The number of characters that `itoa` writes in base 10, which `append64` reserves room for.
use native.Mathlib.Nat.{pow-le-pow_right, le_trans}
use libglim.Base.{ℕ, suc, ◌+◌, ◌^◌, ◌≤◌, ◌<◌, arith, length, length-append}
use libglim.Base.Int.{ℤ, pos, negsuc}
use libglim.Itoa.{itoa}
use libglim.Itoa.Numeral.{numeral, magnitude, sign, itoa-numeral}
use libglim.Netstring.Digits.{length-numeral}

sign_short : (value : ℤ) → length (sign value) ≤ 1
sign_short (pos n) = omega arith
sign_short (negsuc n) = omega arith

-- A value whose magnitude is below 10 ^ d takes at most d digits and the sign.
pub length-itoa :
    (value : ℤ) (d : ℕ) → d < 64 → magnitude value < 10 ^ suc d → length (itoa value 10) ≤ suc d + 1
length-itoa value d small h =
    let below : suc d ≤ 64 = omega arith in
    rw
      (itoa-numeral value 10 (omega arith) (omega arith)
        (le_trans h (pow-le-pow_right {n = 10} (omega arith) below)))
      (omega (
        arith,
        length-append (sign value) (numeral 64 (magnitude value) 10),
        sign_short value,
        length-numeral 64 d (magnitude value) h,
      ))
