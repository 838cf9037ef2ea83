-- ===== src/Interp/Tagging.antt =====
-- The integer instructions of byterun/interp.c on tagged words against the integers that the words
-- stand for.
use ocaml.Common.{ℕ, ◌%◌, ◌^◌, ◌<◌, ◌≡◌, arith}
use ocaml.Common.Int.{ℤ, pos, negsuc, ◌+ℤ◌, ◌-ℤ◌, ltb_ℤ}
use ocaml.Interp.Word.{val_long, long_val, add_int, sub_int, neg_int, signed_lt}

-- The integers that fit: 63 bits.
abbrev pub Fits : ℤ → Type 0
Fits (pos n) = n < 2 ^ 62
Fits (negsuc n) = n < 2 ^ 62

-- Tagging and untagging.
pub long_val-val_long-Fits : (n : ℤ) → Fits n → long_val (val_long n) ≡ n
unfolding long_val val_long
long_val-val_long-Fits (pos n) h = ground arith
long_val-val_long-Fits (negsuc n) h = ground arith

pub val_long-long_val : (w : ℕ) → w < 2 ^ 64 → w % 2 ≡ 1 → val_long (long_val w) ≡ w
unfolding long_val val_long
val_long-long_val w small odd = ground arith

pub add_int-val_long : (m n : ℤ) → add_int (val_long m) (val_long n) ≡ val_long (m +ℤ n)
unfolding add_int val_long ◌+ℤ◌
add_int-val_long (pos m) (pos n) = ground arith
add_int-val_long (pos m) (negsuc n) = ground arith
add_int-val_long (negsuc m) (pos n) = ground arith
add_int-val_long (negsuc m) (negsuc n) = ground arith

pub sub_int-val_long : (m n : ℤ) → sub_int (val_long m) (val_long n) ≡ val_long (m -ℤ n)
unfolding sub_int val_long ◌-ℤ◌
sub_int-val_long (pos m) (pos n) = ground arith
sub_int-val_long (pos m) (negsuc n) = ground arith
sub_int-val_long (negsuc m) (pos n) = ground arith
sub_int-val_long (negsuc m) (negsuc n) = ground arith

pub neg_int-val_long : (n : ℤ) → neg_int (val_long n) ≡ val_long (pos 0 -ℤ n)
unfolding neg_int val_long ◌-ℤ◌
neg_int-val_long (pos n) = ground arith
neg_int-val_long (negsuc n) = ground arith

pub signed_lt-val_long :
    (m n : ℤ) → Fits m → Fits n → signed_lt (val_long m) (val_long n) ≡ ltb_ℤ m n
unfolding signed_lt val_long
signed_lt-val_long (pos m) (pos n) h k = ground arith
signed_lt-val_long (pos m) (negsuc n) h k = ground arith
signed_lt-val_long (negsuc m) (pos n) h k = ground arith
signed_lt-val_long (negsuc m) (negsuc n) h k = ground arith
