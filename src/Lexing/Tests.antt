-- ===== src/Lexing/Tests.antt =====
-- Runs of the engines of byterun/lexing.c on the automaton of a small lexer, and their theorems there.
use ocaml.Common.{
  ℕ, zero, suc, ◌*◌, ◌<◌, ◌≡◌, refl, false, [], ◌∷◌, ◌==◌, if◌then◌else◌, arith, get_or,
}
use ocaml.Common.Int.{pos, negsuc}
use ocaml.Lexing.Engine.{LexerBuffer, LexingTable, token, refill, lex_engine}
use ocaml.Lexing.Memory.{new_lex_engine}
use ocaml.Lexing.Refill.{refilled, lex_engine-refilled}
use ocaml.Lexing.Forget.{without_mem, forget, new_lex_engine-forget}
use ocaml.Lexing.Positions.{IsLexed, lex_engine-IsLexed}

-- The automaton of the rule 'a'+ : state 0 goes to state 1 on the letter, and state 1 to itself, with
-- action 0. State 1 puts the position in field 0 of the memory at each letter.
abbrev letters : LexingTable
letters = record {
  lex_base = λ state. pos (state * 300);
  lex_backtrk = λ state. if state == 1 then pos 0 else negsuc 0;
  lex_default = λ state. negsuc 0;
  lex_trans = λ i. pos 1;
  lex_check = λ i. if i == 97 then pos 0 else if i == 397 then pos 1 else negsuc 0;
  lex_base_code = λ state. pos 0;
  lex_backtrk_code = λ state. pos 0;
  lex_default_code = λ state. pos 1;
  lex_trans_code = λ i. pos 0;
  lex_check_code = λ i. negsuc 0;
  lex_code = 255 ∷ 0 ∷ 255 ∷ 255 ∷ [];
}

abbrev text : ℕ → ℕ
text i = get_or (97 ∷ 97 ∷ 97 ∷ 32 ∷ []) i 0

abbrev two_read : LexerBuffer
two_read = record {
  lex_buffer = λ i. get_or (97 ∷ 97 ∷ []) i 0;
  lex_buffer_len = 2;
  lex_start_pos = 0;
  lex_curr_pos = 0;
  lex_last_pos = 0;
  lex_last_action = negsuc 0;
  lex_eof_reached = false;
  lex_mem = negsuc 0 ∷ [];
}

abbrev asked : LexerBuffer
asked = record two_read { lex_curr_pos = 2; lex_last_pos = 2; lex_last_action = pos 0 }

abbrev all_read : LexerBuffer
all_read = refilled text 4 two_read

asks_for_refill : lex_engine letters (pos 0) two_read ≡ refill 1 asked
unfolding lex_engine
asks_for_refill = refl

finds_letters :
    lex_engine letters (pos 0) all_read
    ≡ token
        (pos 0)
        (record all_read { lex_curr_pos = 3; lex_last_pos = 3; lex_last_action = pos 0 })
unfolding lex_engine
finds_letters = refl

remembers :
    new_lex_engine letters (pos 0) all_read
    ≡ token (pos 0) (record all_read {
      lex_curr_pos = 3;
      lex_last_pos = 3;
      lex_last_action = pos 0;
      lex_mem = pos 3 ∷ [];
    })
unfolding new_lex_engine
remembers = refl

lex_engine-refilled_example :
    lex_engine letters (negsuc 1) (refilled text 4 asked) ≡ lex_engine letters (pos 0) all_read
lex_engine-refilled_example =
    lex_engine-refilled letters 0 1 two_read asked text 4 (omega arith, extends) refl
      asks_for_refill
  where
    extends : (i : ℕ) → i < 2 → text i ≡ two_read.lex_buffer i
    extends zero h = refl
    extends (suc zero) h = refl
    extends (suc (suc i)) h = absurd (omega arith)

new_lex_engine-forget_example :
    forget (new_lex_engine letters (pos 0) all_read)
    ≡ lex_engine letters (pos 0) (without_mem all_read)
new_lex_engine-forget_example = new_lex_engine-forget letters (pos 0) all_read

lex_engine-IsLexed_example : IsLexed 0 2 (lex_engine letters (pos 0) two_read)
lex_engine-IsLexed_example = lex_engine-IsLexed letters 0 two_read (omega arith)
