-- ===== src/Parsing/Bounds.antt =====
-- The stacks of caml_parse_engine_r of byterun/parsing.c stay within their size.
use ocaml.Common.{ℕ, ◌<◌, ◌≡◌}
use ocaml.Parsing.Engine.{
  ParserTables, ParserEnv, Locals, Output, grow_stacks_1, grow_stacks_2, raise_parse_error,
  call_error_function, read_token, compute_semantic_action, Answer, answer, underflow, out_of_fuel,
}
use ocaml.Parsing.Stacks.{Kept}

-- The top of the stack that an answer leaves: just above the stacks where larger ones are asked for,
-- and within them otherwise.
abbrev pub IsTop : Output → ℕ → ℕ → Type 0
IsTop grow_stacks_1 n sp = sp ≡ n
IsTop grow_stacks_2 n sp = sp ≡ n
IsTop read_token n sp = sp < n
IsTop raise_parse_error n sp = sp < n
IsTop compute_semantic_action n sp = sp < n
IsTop call_error_function n sp = sp < n

abbrev pub IsWithin : {A : Type 0} → ParserEnv A → Answer A → Type 0
IsWithin e0 (answer o e) = Kept e0 e × IsTop o e0.stacksize e.saved_sp
IsWithin e0 (underflow n sp) = Unit {0}
IsWithin e0 out_of_fuel = Unit {0}

module _ {A : Type 0} (t : ParserTables) (e0 : ParserEnv A) where
  -- What loop keeps.
  Safe : (Locals → ParserEnv A → Answer A) → Type 0
  Safe again =
      (l : Locals) (e : ParserEnv A)
      → Kept e0 e
      → e.saved_sp < e0.stacksize
      → l.sp < e0.stacksize
      → IsWithin e0 (again l e)
