-- ===== src/Header/Octal.antt =====
-- The octal numbers that tar writes in the fields of a header.
use tarfs.Base.{
  ℕ, zero, suc, ◌+◌, ◌*◌, ◌/◌, ◌%◌, ◌^◌, ◌-◌, ◌≤◌, ◌<◌, ◌≡◌, refl, ◌∙◌, true, false, [], ◌∷◌, ◌++◌,
  arith, All, All-append, length, length-append, replicate, ltb, ◌==◌,
}
use tarfs.Meta.{Bytes}
use tarfs.Header.{isspace, is_octal, skip_spaces, octal, strtoull8, getval8}

-- `v` in `n` octal digits
pub octal_digits : ℕ → ℕ → Bytes
octal_digits zero v = []
octal_digits (suc n) v = octal_digits n (v / 8) ++ (b'0' + v % 8) ∷ []

-- 8 to the power of `n`
unfoldable pub power_of_8 : ℕ → ℕ
power_of_8 zero = 1
power_of_8 (suc n) = 8 * power_of_8 n

abbrev Octal : ℕ → Type 0
Octal c = (b'0' ≤ c) × (c ≤ b'7')

Octal-is_octal : (c : ℕ) → Octal c → is_octal c ≡ true
Octal-is_octal c h = ground arith

octal_digits-Octal : (n v : ℕ) → All Octal (octal_digits n v)
unfolding octal_digits
octal_digits-Octal zero v = tt
octal_digits-Octal (suc n) v =
    All-append Octal (octal_digits n (v / 8)) _ (octal_digits-Octal n (v / 8))
      ((omega arith, omega arith), tt)

octal-append :
    (acc : ℕ) (xs ys : Bytes) → All Octal xs → octal acc (xs ++ ys) ≡ octal (octal acc xs) ys
unfolding octal
octal-append acc [] ys h = refl
octal-append acc (x ∷ xs) ys h =
    rw (octal, Octal-is_octal x h.0) (octal-append (acc * 8 + (x - b'0')) xs ys h.1)

octal-octal_digits : (n v : ℕ) → v < power_of_8 n → octal 0 (octal_digits n v) ≡ v
unfolding octal_digits power_of_8 octal
octal-octal_digits zero v h = omega arith
octal-octal_digits (suc n) v h =
    let digit = Octal-is_octal (b'0' + v % 8) (omega arith, omega arith) in
    rw
      (
        octal-append 0 (octal_digits n (v / 8)) ((b'0' + v % 8) ∷ [])
            (octal_digits-Octal n (v / 8)),
        octal-octal_digits n (v / 8) (omega arith),
        octal,
        digit,
      )
      (omega arith)

octal-stops : (acc c : ℕ) (rest : Bytes) → is_octal c ≡ false → octal acc (c ∷ rest) ≡ acc
unfolding octal
octal-stops acc c rest h = rw (octal, h) refl

skip_spaces-replicate :
    (k c : ℕ) (cs : Bytes) → Octal c → skip_spaces (replicate k b' ' ++ c ∷ cs) ≡ c ∷ cs
unfolding skip_spaces
skip_spaces-replicate zero c cs h =
    let digit : isspace c ≡ false = ground arith in rw (skip_spaces, digit) refl
skip_spaces-replicate (suc k) c cs h = skip_spaces-replicate k c cs h

-- A field of spaces and octal digits, with what ends it
getval8-digits :
    (k c end : ℕ) (cs rest : Bytes)
    → All Octal (c ∷ cs)
    → is_octal end ≡ false
    → octal 0 (c ∷ cs) < 2 ^ 64
    → getval8 (replicate k b' ' ++ ((c ∷ cs) ++ end ∷ rest)) ≡ octal 0 (c ∷ cs)
unfolding getval8 strtoull8
getval8-digits k c end cs rest digits stop small =
    let minus : (c == b'-') ≡ false = ground arith in
    let plus : (c == b'+') ≡ false = ground arith in
    let value : octal 0 (c ∷ (cs ++ end ∷ rest)) ≡ octal 0 (c ∷ cs) =
      octal-append 0 (c ∷ cs) (end ∷ rest) digits ∙ octal-stops (octal 0 (c ∷ cs)) end rest stop in
    let fits : ltb (2 ^ 64 - 1) (octal 0 (c ∷ cs)) ≡ false = ground arith in
    rw
      (
        getval8,
        skip_spaces-replicate k c (cs ++ end ∷ rest) digits.0,
        strtoull8,
        minus,
        plus,
        value,
        fits,
      )
      refl

getval8-some :
    (k end : ℕ) (cs rest : Bytes)
    → All Octal cs
    → 0 < length cs
    → is_octal end ≡ false
    → octal 0 cs < 2 ^ 64
    → getval8 (replicate k b' ' ++ (cs ++ end ∷ rest)) ≡ octal 0 cs
getval8-some k end [] rest digits long stop small = absurd (omega arith)
getval8-some k end (c ∷ cs) rest digits long stop small =
    getval8-digits k c end cs rest digits stop small

octal_digits-long : (n v : ℕ) → 0 < length (octal_digits (suc n) v)
unfolding octal_digits
octal_digits-long n v = omega (arith, length-append (octal_digits n (v / 8)) ((b'0' + v % 8) ∷ []))

-- A field that holds `v` in `n` octal digits, with spaces before them and any byte behind them that is
-- no octal digit, has the value `v`, if `v` has at most `n` digits and at most 64 bits.
pub getval8-octal_digits :
    (k n v end : ℕ) (rest : Bytes)
    → 0 < n
    → v < power_of_8 n
    → v < 2 ^ 64
    → is_octal end ≡ false
    → getval8 (replicate k b' ' ++ (octal_digits n v ++ end ∷ rest)) ≡ v
getval8-octal_digits k zero v end rest pos fits small stop = absurd (omega arith)
getval8-octal_digits k (suc n) v end rest pos fits small stop =
    let value = octal-octal_digits (suc n) v fits in
    getval8-some k end (octal_digits (suc n) v) rest (octal_digits-Octal (suc n) v)
      (octal_digits-long n v) stop (omega arith)
    ∙ value
