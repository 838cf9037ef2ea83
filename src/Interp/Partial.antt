-- ===== src/Interp/Partial.antt =====
-- Partial application: GRAB against RESTART of byterun/interp.c.
use ocaml.Common.{
  ℕ, suc, ◌+◌, ◌-◌, ◌^◌, ◌≤◌, ◌<◌, ◌≡◌, refl, ap, some, List, [], ◌∷◌, ◌++◌, arith, length,
  append_assoc, length-append, ◌∙◌, get_elem?, sym, subst,
}
use ocaml.Common.Int.{pos}
use ocaml.Interp.Machine.{
  Value, ptr, code, Block, Heap, Machine, next, code_val, Runtime, closure_tag, field, as_code,
  block_at,
}
use ocaml.Interp.Opcode.{Opcode}
use ocaml.Interp.Step.{exec}
use ocaml.Interp.Apply.{grab, restart, read_fields}
use ocaml.Interp.Calls.{call_frame}
use ocaml.Interp.Facts.{split-append, count_val-val_count, get_elem?-fresh}

-- The block of a partial application.
abbrev pub partial_block : ℕ → Value → List Value → Block
partial_block p env args = record { tag = closure_tag; fields = code p ∷ env ∷ args }

-- GRAB with too few arguments: the closure goes to the caller.
grab-returns :
    (r : Runtime) (s caller : Machine) (required : ℕ) (a : Value) (args rest : List Value)
    → s.prog s.pc ≡ pos required
    → s.extra_args ≡ length args
    → length args < required
    → 2 ≤ s.pc
    → caller.extra_args < 2 ^ 62
    → exec r Opcode.grab (record s { stack = (a ∷ args) ++ call_frame caller rest })
      ≡ next (record s {
        pc = caller.pc;
        stack = rest;
        accu = ptr (length s.heap) 0;
        env = caller.env;
        extra_args = caller.extra_args;
        heap = s.heap ++ (partial_block (s.pc - 2) s.env (a ∷ args) ∷ []);
      })
unfolding exec grab
grab-returns r s caller required a args rest operand extra few start small =
    ground (
      arith,
      split-append (a ∷ args) (call_frame caller rest),
      count_val-val_count caller.extra_args,
    )

pub get_elem?-middle :
    (front : List Value) (x : Value) (args : List Value)
    → get_elem? (front ++ (x ∷ args)) (length front) ≡ some x
get_elem?-middle [] x args = refl
get_elem?-middle (y ∷ front) x args = get_elem?-middle front x args

-- The fields of a block from one of them on.
pub read_fields-rest :
    (h : Heap) (b tag : ℕ) (front args : List Value)
    → get_elem? h b ≡ some (record { tag = tag; fields = front ++ args })
    → read_fields h (ptr b 0) (length front) (length args) ≡ some args
unfolding read_fields
read_fields-rest h b tag front [] e = refl
read_fields-rest h b tag front (x ∷ args) e =
    let later = read_fields-rest h b tag (front ++ (x ∷ [])) args (
      e
      ∙ ap (λ fs. some (record { tag = tag; fields = fs }))
          (sym (append_assoc front (x ∷ []) args))) in
    ground (
      arith,
      get_elem?-middle front x args,
      subst (λ n. read_fields h (ptr b 0) n (length args) ≡ some args)
          (length-append front (x ∷ []) ∙ one_more (length front)) later,
    )
  where
    one_more : (n : ℕ) → n + 1 ≡ suc n
    one_more n = omega arith

-- RESTART in the closure of a partial application.
restart-partial :
    (r : Runtime) (t : Machine) (b p : ℕ) (env : Value) (args : List Value)
    → get_elem? t.heap b ≡ some (partial_block p env args)
    → exec r Opcode.restart (record t { env = ptr b 0 })
      ≡ next
          (record t { stack = args ++ t.stack; env = env; extra_args = t.extra_args + length args })
unfolding exec restart
restart-partial r t b p env args e =
    ground (arith, read_fields-rest t.heap b closure_tag (code p ∷ env ∷ []) args)

-- Partial application. GRAB with too few arguments goes back to the caller, with its frame undone
-- and in accu a fresh closure. In any machine whose heap still holds that block, the code of the
-- closure is the RESTART before the GRAB, and running it on the closure puts the arguments back on
-- top of the stack, counts them and restores the environment of the function.
pub grab-restart :
    (r : Runtime) (s caller t : Machine) (required : ℕ) (a : Value) (args rest : List Value)
    → s.prog s.pc ≡ pos required
    → s.extra_args ≡ length args
    → length args < required
    → 2 ≤ s.pc
    → caller.extra_args < 2 ^ 62
    → get_elem? t.heap (length s.heap)
      ≡ get_elem? (s.heap ++ (partial_block (s.pc - 2) s.env (a ∷ args) ∷ [])) (length s.heap)
    → (exec r Opcode.grab (record s { stack = (a ∷ args) ++ call_frame caller rest })
        ≡ next (record s {
          pc = caller.pc;
          stack = rest;
          accu = ptr (length s.heap) 0;
          env = caller.env;
          extra_args = caller.extra_args;
          heap = s.heap ++ (partial_block (s.pc - 2) s.env (a ∷ args) ∷ []);
        }))
      × (code_val t.heap (ptr (length s.heap) 0) ≡ some (s.pc - 2))
      × (exec r Opcode.restart (record t { env = ptr (length s.heap) 0 })
          ≡ next (record t {
            stack = (a ∷ args) ++ t.stack;
            env = s.env;
            extra_args = t.extra_args + length (a ∷ args);
          }))
unfolding code_val field as_code
grab-restart r s caller t required a args rest operand extra few start small kept =
    let block = kept ∙ get_elem?-fresh s.heap (partial_block (s.pc - 2) s.env (a ∷ args)) in
    (
      grab-returns r s caller required a args rest operand extra few start small,
      rw (block, code_val, field, block_at, as_code),
      restart-partial r t (length s.heap) (s.pc - 2) s.env (a ∷ args) block,
    )
