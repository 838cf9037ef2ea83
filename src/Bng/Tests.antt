-- ===== src/Bng/Tests.antt =====
-- Runs of the operations of otherlibs/num/bng.c, and their theorems at concrete numbers.
use ocaml.Common.{
  ℕ, ◌+◌, ◌-◌, ◌*◌, ◌/◌, ◌%◌, ◌^◌, ◌≤◌, ◌<◌, ◌≡◌, refl, List, [], ◌∷◌, arith, length,
}
use ocaml.Bng.Digit.{base}
use ocaml.Bng.Defs.{
  compare_digits, add, sub, mult_sub_digit, mult_add, shift_left, shift_right, num_digits,
  leading_zero_bits,
}
use ocaml.Bng.Value.{value, scale, IsDigits}
use ocaml.Bng.Sums.{add-value, sub-value}
use ocaml.Bng.Borrow.{mult_sub_digit-value}
use ocaml.Bng.MultAdd.{mult_add-value}
use ocaml.Bng.Order.{Orders, compare_digits-Orders}
use ocaml.Bng.Shifts.{shift_left-value, shift_right-value}

abbrev top : ℕ
top = base - 1

-- A carry through two digits and out of the number.
abbrev full : List ℕ
full = top ∷ top ∷ []

abbrev small : List ℕ
small = 7 ∷ []

abbrev three : List ℕ
three = top ∷ 5 ∷ 9 ∷ []

full-IsDigits : IsDigits full
full-IsDigits = (omega arith, (omega arith, tt))

small-IsDigits : IsDigits small
small-IsDigits = (omega arith, tt)

three-IsDigits : IsDigits three
three-IsDigits = (omega arith, (omega arith, (omega arith, tt)))

add_carries : add full small 0 ≡ (6 ∷ 0 ∷ [], 1)
unfolding add
add_carries = refl

num_digits_of_padded : num_digits (3 ∷ 4 ∷ 0 ∷ []) ≡ 2
unfolding num_digits
num_digits_of_padded = refl

leading_zero_bits_of_five : leading_zero_bits 5 ≡ 61
unfolding leading_zero_bits
leading_zero_bits_of_five = refl

add-value_example :
    (value (add full small 1).0 + (add full small 1).1 * scale full ≡ value full + value small + 1)
    × IsDigits (add full small 1).0
    × (length (add full small 1).0 ≡ length full)
    × ((add full small 1).1 ≤ 1)
add-value_example = add-value full small 1 full-IsDigits small-IsDigits (omega arith) (omega arith)

sub-value_example :
    (value (sub small small 1).0 + value small + 1
      ≡ value small + (sub small small 1).1 * scale small)
    × IsDigits (sub small small 1).0
    × (length (sub small small 1).0 ≡ length small)
    × ((sub small small 1).1 ≤ 1)
sub-value_example =
    sub-value small small 1 small-IsDigits small-IsDigits (omega arith) (omega arith)

mult_sub_digit-value_example :
    (value (mult_sub_digit three full top).0 + value full * top
      ≡ value three + (mult_sub_digit three full top).1 * scale three)
    × IsDigits (mult_sub_digit three full top).0
    × (length (mult_sub_digit three full top).0 ≡ length three)
    × ((mult_sub_digit three full top).1 < base)
mult_sub_digit-value_example =
    mult_sub_digit-value three full top three-IsDigits full-IsDigits (omega arith) (omega arith)

mult_add-value_example :
    (value (mult_add three full small).0 + (mult_add three full small).1 * scale three
      ≡ value three + value full * value small)
    × IsDigits (mult_add three full small).0
    × (length (mult_add three full small).0 ≡ length three)
    × ((mult_add three full small).1 ≤ 1)
mult_add-value_example =
    mult_add-value three full small three-IsDigits full-IsDigits small-IsDigits (omega arith)

compare_digits-Orders_example : Orders (compare_digits three full) (value three) (value full)
compare_digits-Orders_example = compare_digits-Orders three full three-IsDigits full-IsDigits

shift_left-value_example :
    (value (shift_left three 3).0 + (shift_left three 3).1 * scale three ≡ value three * 2 ^ 3)
    × IsDigits (shift_left three 3).0
    × (length (shift_left three 3).0 ≡ length three)
    × ((shift_left three 3).1 < 2 ^ 3)
shift_left-value_example = shift_left-value three 3 three-IsDigits (omega arith)

shift_right-value_example :
    (value (shift_right three 3).0 ≡ value three / 2 ^ 3)
    × IsDigits (shift_right three 3).0
    × (length (shift_right three 3).0 ≡ length three)
    × ((shift_right three 3).1 ≡ value three % 2 ^ 3 * 2 ^ (64 - 3))
shift_right-value_example = shift_right-value three 3 three-IsDigits (omega arith)
