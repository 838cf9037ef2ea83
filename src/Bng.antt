-- ===== src/Bng.antt =====
-- Natural numbers of several digits, otherlibs/num/bng.c and bng_digit.c: the generic operations in
-- plain C, with digits of 64 bits. A number is the list of its digits, the least significant first,
-- and the length that C passes along is the length of the list. A function that writes to its first
-- argument returns the new digits with the carry.
pub mod Digit
pub mod Defs
pub mod Value
pub mod Sums
pub mod Products
pub mod Borrow
pub mod MultAdd
pub mod Order
pub mod Shifts
pub mod Tests
