-- ===== src/Bng/Digit.antt =====
-- The operations on one digit, the macros of otherlibs/num/bng_digit.c.
use ocaml.Common.{ℕ, ◌+◌, ◌-◌, ◌*◌, ◌/◌, ◌%◌, ◌^◌, Bool, ltb, if◌then◌else◌}

-- Digits are below `base`; half digits below `half`.
abbrev pub base : ℕ
base = 2 ^ 64

abbrev pub half : ℕ
half = 2 ^ 32

-- The number that a C test gives.
abbrev pub flag : Bool → ℕ
flag b = if b then 1 else 0

-- A difference of digits, which wraps around.
abbrev pub minus : ℕ → ℕ → ℕ
minus a b = (a + base - b) % base

-- The macros return the result and the carry.
unfoldable pub add2 : ℕ → ℕ → ℕ × ℕ
add2 tmp1 arg2 = let tmp2 = (tmp1 + arg2) % base in (tmp2, flag (ltb tmp2 tmp1))

unfoldable pub add2_carry : ℕ → ℕ → ℕ → ℕ × ℕ
add2_carry tmp1 arg2 carryin =
    let tmp2 = (tmp1 + arg2) % base in
    let tmp3 = (tmp2 + carryin) % base in (tmp3, flag (ltb tmp2 tmp1) + flag (ltb tmp3 tmp2))

-- The carries are added to `carryaccu`, a digit.
unfoldable pub add3 : ℕ → ℕ → ℕ → ℕ → ℕ × ℕ
add3 carryaccu tmp1 arg2 arg3 =
    let tmp2 = (tmp1 + arg2) % base in
    let carry1 = (carryaccu + flag (ltb tmp2 tmp1)) % base in
    let tmp3 = (tmp2 + arg3) % base in (tmp3, (carry1 + flag (ltb tmp3 tmp2)) % base)

unfoldable pub sub2 : ℕ → ℕ → ℕ × ℕ
sub2 tmp1 tmp2 = (minus tmp1 tmp2, flag (ltb tmp1 tmp2))

unfoldable pub sub2_carry : ℕ → ℕ → ℕ → ℕ × ℕ
sub2_carry tmp1 tmp2 carryin =
    let tmp3 = minus tmp1 tmp2 in
    (minus tmp3 carryin, flag (ltb tmp1 tmp2) + flag (ltb tmp3 carryin))

unfoldable pub sub3 : ℕ → ℕ → ℕ → ℕ → ℕ × ℕ
sub3 carryaccu tmp1 tmp2 tmp3 =
    let tmp4 = minus tmp1 tmp2 in
    (minus tmp4 tmp3, (carryaccu + (flag (ltb tmp1 tmp2) + flag (ltb tmp4 tmp3))) % base)

-- The high and the low digit of a product, by half digits.
unfoldable pub mult : ℕ → ℕ → ℕ × ℕ
mult arg1 arg2 =
    let p11 = (arg1 % half) * (arg2 % half) % base in
    let p12 = (arg1 % half) * (arg2 / half) % base in
    let p21 = (arg1 / half) * (arg2 % half) % base in
    let p22 = (arg1 / half) * (arg2 / half) % base in
    let resh = (p22 + p12 / half + p21 / half) % base in
    let (resl, resh') = add3 resh p11 (p12 * half % base) (p21 * half % base) in (resh', resl)
