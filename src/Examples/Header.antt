-- ===== src/Examples/Header.antt =====
-- The mode 644 in a field of a header.
use tarfs.Base.{◌<◌, ◌≡◌, refl, [], ◌∷◌, ◌++◌, replicate, arith}
use tarfs.Header.{getval8}
use tarfs.Header.Octal.{octal_digits, power_of_8, getval8-octal_digits}

small-power_of_8 : 420 < power_of_8 6
unfolding power_of_8
small-power_of_8 = omega arith

getval8-octal_digits_example : getval8 (replicate 1 b' ' ++ (octal_digits 6 420 ++ 0 ∷ [])) ≡ 420
getval8-octal_digits_example =
    getval8-octal_digits 1 6 420 0 [] (omega arith) small-power_of_8 (omega arith) refl
