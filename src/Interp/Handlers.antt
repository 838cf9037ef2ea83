-- ===== src/Interp/Handlers.antt =====
-- Exception handlers and signals: PUSHTRAP, POPTRAP, RAISE and the event frame of byterun/interp.c.
use ocaml.Common.{
  ℕ, ◌+◌, ◌^◌, ◌≤◌, ◌<◌, ◌≡◌, some, List, ◌∷◌, ◌++◌, arith, length, true, false, length-append,
}
use ocaml.Interp.Machine.{
  Value, code, link, Machine, next, uncaught, val_count, Runtime, offset, Effect, returns, raises,
}
use ocaml.Interp.Opcode.{Opcode}
use ocaml.Interp.Step.{exec}
use ocaml.Interp.Control.{push_trap, raise_exception, pop_trap, check_signals, after_effect}
use ocaml.Interp.Facts.{split-append, count_val-val_count}

-- The frame of a handler.
abbrev pub trap_frame : Machine → ℕ → List Value
trap_frame s handler = code handler ∷ link s.trapsp ∷ s.env ∷ val_count s.extra_args ∷ s.stack

-- RAISE under a trap frame that PUSHTRAP made, whatever lies over it.
pub raise-trap :
    (r : Runtime) (s t : Machine) (above : List Value) (handler : ℕ)
    → s.extra_args < 2 ^ 62
    → r.initial_depth < length s.stack + 4
    → exec r Opcode.raise
        (record t { stack = above ++ trap_frame s handler; trapsp = length s.stack + 4 })
      ≡ next (record t {
        pc = handler;
        stack = s.stack;
        env = s.env;
        extra_args = s.extra_args;
        trapsp = s.trapsp;
      })
unfolding exec raise_exception
raise-trap r s t above handler small inner = ground (
  arith,
  split-append above (trap_frame s handler),
  length-append above (trap_frame s handler),
  count_val-val_count s.extra_args,
)

-- The machine after PUSHTRAP.
abbrev pub trapped : Machine → ℕ → Machine
trapped s handler = record s {
  pc = s.pc + 1;
  stack = trap_frame s handler;
  trapsp = length s.stack + 4;
}

push_trap-trapped :
    (r : Runtime) (s : Machine) (handler : ℕ)
    → offset s.pc (s.prog s.pc) ≡ some handler
    → exec r Opcode.pushtrap s ≡ next (trapped s handler)
unfolding exec push_trap
push_trap-trapped r s handler h = ground arith

-- A handler catches what is raised under it: after PUSHTRAP, RAISE in any machine that still has
-- its frame, under whatever was pushed since, and still points to it, goes to the handler with the
-- exception in accu and with the stack, environment, argument count and enclosing handler of the
-- PUSHTRAP.
pub push_trap-raise :
    (r : Runtime) (s t : Machine) (above : List Value) (handler : ℕ)
    → offset s.pc (s.prog s.pc) ≡ some handler
    → s.extra_args < 2 ^ 62
    → r.initial_depth < length s.stack + 4
    → (exec r Opcode.pushtrap s ≡ next (trapped s handler))
      × (exec r Opcode.raise (record t {
        stack = above ++ (trapped s handler).stack;
        trapsp = (trapped s handler).trapsp;
      })
          ≡ next (record t {
            pc = handler;
            stack = s.stack;
            env = s.env;
            extra_args = s.extra_args;
            trapsp = s.trapsp;
          }))
push_trap-raise r s t above handler h small inner =
    (push_trap-trapped r s handler h, raise-trap r s t above handler small inner)

-- POPTRAP with no signal pending undoes PUSHTRAP: the stack and the enclosing handler are those
-- from before it.
push_trap-pop_trap :
    (r : Runtime) (s t : Machine) (handler : ℕ)
    → offset s.pc (s.prog s.pc) ≡ some handler
    → t.something_to_do ≡ false
    → (exec r Opcode.pushtrap s ≡ next (trapped s handler))
      × (exec r Opcode.poptrap (record t { stack = (trapped s handler).stack })
          ≡ next (record t { stack = s.stack; trapsp = s.trapsp }))
unfolding exec pop_trap
push_trap-pop_trap r s t handler h quiet = (push_trap-trapped r s handler h, ground arith)

-- With a signal pending, POPTRAP runs the handler of the signal first. An exception that it raises
-- goes to the trap frame that POPTRAP was about to remove, not to the enclosing one.
pub pop_trap-raises :
    (r : Runtime) (s t : Machine) (handler : ℕ) (e : Effect)
    → s.extra_args < 2 ^ 62
    → r.initial_depth < length s.stack + 4
    → 0 < t.pc
    → t.something_to_do ≡ true
    → r.event t.heap ≡ raises e
    → exec r Opcode.poptrap (record t { stack = trap_frame s handler; trapsp = length s.stack + 4 })
      ≡ next (record t {
        pc = handler;
        stack = s.stack;
        accu = e.value;
        env = s.env;
        extra_args = s.extra_args;
        trapsp = s.trapsp;
        heap = e.heap;
        something_to_do = e.pending;
      })
unfolding exec pop_trap
pop_trap-raises r s t handler e small inner behind pending raising =
    ground (arith, count_val-val_count s.extra_args)

-- A signal whose handler returns is not seen: CHECK_SIGNALS restores every register, accu included, from
-- the event frame, and takes from the handler only the heap and the request for attention.
pub check_signals-returns :
    (r : Runtime) (s : Machine) (e : Effect)
    → s.extra_args < 2 ^ 62
    → s.something_to_do ≡ true
    → r.event s.heap ≡ returns e
    → exec r Opcode.check_signals s ≡ next (after_effect e s)
unfolding exec check_signals
check_signals-returns r s e small pending returning =
    ground (arith, count_val-val_count s.extra_args)

-- An exception that no handler of this call of the interpreter is left for leaves it, with the
-- stack cut back to where the call found it.
raise-uncaught :
    (r : Runtime) (s : Machine) (above outer : List Value)
    → length outer ≡ r.initial_depth
    → s.trapsp ≤ r.initial_depth
    → exec r Opcode.raise (record s { stack = above ++ outer })
      ≡ uncaught s.accu (record s { stack = outer })
unfolding exec raise_exception
raise-uncaught r s above outer depth none_left =
    ground (arith, split-append above outer, length-append above outer)
