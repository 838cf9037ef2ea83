-- ===== src/Yacc/Warshall.antt =====
-- The transitive closure of yacc/warshall.c, on a matrix of bits in words of 32.
use Prim.Native.Nat.{bit_and, bit_or}
use ocaml.Common.{ℕ, zero, suc, ◌+◌, ◌*◌, ◌%◌, ◌^◌, not, ◌&&◌, ◌==◌, if◌then◌else◌}

-- The words of each row.
abbrev pub Matrix : Type 0
Matrix = ℕ → ℕ → ℕ

-- `*rowj++ |= *rp++` to the end of row j, where rp goes through row i.
unfoldable pub or_row : ℕ → ℕ → Matrix → Matrix
or_row i j m = λ r w. if r == j then bit_or (m j w) (m i w) else m r w

-- The loop on rows, where `count` of them are left, rowj is row j and ccol is the word cword of it.
unfoldable pub closure_rows : ℕ → ℕ → ℕ → ℕ → ℕ → Matrix → Matrix
unfolding or_row
closure_rows i cword mask zero j m = m
closure_rows i cword mask (suc count) j m =
    closure_rows i cword mask count (suc j)
      (if not (bit_and (m j cword) mask == 0) then or_row i j m else m)

-- The loop on rowi, where `count` rows are left.
unfoldable pub closure_from : ℕ → ℕ → ℕ → ℕ → ℕ → Matrix → Matrix
unfolding closure_rows
closure_from n zero i cword mask m = m
closure_from n (suc count) i cword mask m =
    let m' = closure_rows i cword mask n 0 m in
    let mask' = (2 * mask) % 2 ^ 32 in
    if mask' == 0
    then closure_from n count (suc i) (cword + 1) 1 m'
    else closure_from n count (suc i) cword mask' m'

unfoldable pub transitive_closure : ℕ → Matrix → Matrix
unfolding closure_from
transitive_closure n m = closure_from n n 0 0 1 m

unfoldable pub set_diagonal : ℕ → ℕ → ℕ → ℕ → Matrix → Matrix
set_diagonal zero i word mask m = m
set_diagonal (suc count) i word mask m =
    let m' : Matrix = λ r w. if (r == i) && (w == word) then bit_or (m r w) mask else m r w in
    let mask' = (2 * mask) % 2 ^ 32 in
    if mask' == 0
    then set_diagonal count (suc i) (word + 1) 1 m'
    else set_diagonal count (suc i) word mask' m'

unfoldable pub reflexive_transitive_closure : ℕ → Matrix → Matrix
unfolding transitive_closure set_diagonal
reflexive_transitive_closure n m = set_diagonal n 0 0 1 (transitive_closure n m)
