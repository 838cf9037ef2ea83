-- ===== src/Lib.antt =====
-- Parts of the runtime of OCaml in C: the abstract machine of the bytecode, the engines that run
-- the automata of ocamllex and ocamlyacc, a part of ocamlyacc, structural comparison and hashing,
-- the buffers of channels, and the library of natural numbers of several digits.
--
-- The bytecode interpreter, byterun/interp.c, is a loop over instructions on registers, a stack
-- and a heap. The module Interp models it: Interp.Word the representation of integers as words of
-- 64 bits (Val_long and Long_val of byterun/mlvalues.h), Interp.Machine values, the heap and the
-- registers (pc, sp, accu, env, extra_args and caml_trapsp), Interp.Opcode the numbers of
-- byterun/instruct.h. Each instruction is a function: Interp.Stack has ACC to ASSIGN and the
-- accesses to the environment, Interp.Control the handlers of exceptions, raise_exception, the
-- checks of signals and Setup_for_event, Interp.Apply APPLY to GRAB, Interp.Closure the closures,
-- Interp.Block the globals and the blocks, Interp.Branch the branches and SWITCH, Interp.Arith the
-- arithmetic and the comparisons, Interp.Object the method calls and Interp.Primitive the calls of
-- C. Interp.Step.exec dispatches on an instruction as the switch of caml_interprete_r does,
-- Interp.Step.step decodes one and runs it, and Interp.Step.run is the loop.
--
-- The stack is the list of its words, the top first, and the machine has the size of the memory
-- for it. A pointer into it, such as caml_trapsp, is the number of words below it, so it stays
-- what it is when check_stacks has caml_realloc_stack_r of byterun/stacks.c move the stack to a
-- larger place. That function is in Interp.Control: it doubles the size, with fuel of one more
-- than the words up to the limit, raises Stack_overflow at the limit, and Out_of_memory where
-- malloc has no room. The heap is a list of blocks, to which an allocation adds one; there is no
-- collector, and what a write tells it is left out. The code is a function from addresses to
-- opcodes and operands, without threading. What C leaves undefined, such as a read past the top of
-- the stack, a sum of ints that is no int, or a cached offset of GETPUBMET that is no multiple of
-- the word size, is a fault. Primitives of C and the handler of signals are a parameter, Runtime:
-- a function to what they return or raise, with the heap they leave; so are the limit and the
-- threshold of the stack and what malloc gives. The division of the least integer by -1, of which
-- C says nothing, is the wrapped quotient. The index of the last tag of a table of methods is read
-- as an int; the search for a tag runs on fuel of one more than it, and each turn of it halves an
-- interval of indices below that; run has the fuel that its caller gives it. Interp.Division
-- describes the division that rounds towards zero, and Interp.Overflow is about calls with too
-- little room on the stack. EVENT, BREAK and the debugger are left out, and so are backtraces.
--
-- The module Lexing models byterun/lexing.c: Lexing.Engine caml_lex_engine_r and Lexing.Memory
-- caml_new_lex_engine_r, with run_mem and run_tag. The tables are functions, and the buffer a
-- function from positions to bytes with its length. One turn of the loop is a function that
-- returns or goes on, and the loop runs on fuel of one more than the bytes left and the end of the
-- input: each turn takes one of these away. The number -state - 1 that asks the caller for a
-- refill is a result of its own.
--
-- The module Parsing models caml_parse_engine_r of byterun/parsing.c: Parsing.Engine has a
-- function for each label (push_state, shift_recover, shift, recover, reduce, testshift and
-- parse_loop for loop), of which those that go to loop take it as an argument, and parse_engine
-- has the commands with which the parser in OCaml enters it. The tables and the stacks are
-- functions, the stacks with their size. The fuel of four is for the passes of loop before an
-- answer. The trace is left out.
--
-- The module Bng models the generic C of otherlibs/num/bng.c and bng_digit.c, with digits of 64
-- bits: Bng.Digit the macros and Bng.Defs the functions of the same names without bng_ and
-- bng_generic_. A number is the list of its digits, the least significant first, and Bng.Value
-- says which number digits stand for. A function that writes to its first argument returns the
-- digits left there with the carry. The requirement that the first number is no shorter than the
-- second is a hypothesis where it is needed. The square, the division and the versions in assembly
-- are left out.
--
-- The module Generic models the primitives on values of any type. Generic.Heap has values, which
-- are integers, addresses of blocks and addresses outside the heap, and the heap as a function
-- from addresses to blocks. The comparison of floats, their bits and the operations of custom
-- blocks are a parameter, Platform. Generic.Compare and Generic.Loop model byterun/compare.c:
-- compare_values is what one turn of the loop of compare_val_r does with two values, compare_loop
-- the loop with its stack of fields still to be compared, and caml_compare to caml_greaterequal
-- the primitives. The stack has its size, and a function says which sizes malloc gives; a list of
-- its items, the last pushed first, stands for its words. The loop runs on fuel that the caller
-- gives. Generic.Lexicographic is the comparison without a stack, as a relation. Generic.Hash
-- models caml_hash of byterun/hash.c, with its queue of at most 256 values and the mixing
-- functions. There fuel is one for each place of the queue and two more, and the depth bounds how
-- many forward and infix pointers are followed for one value. The older hash function is left out.
--
-- The module Channel models the buffers of byterun/io.c and byterun/io.h: Channel.Output flush,
-- putword and putblock, Channel.Input refill, getword, getblock and seek, and Channel.Line
-- caml_input_scan_line_r. The operating system is a list of answers to the calls of read, write
-- and lseek: how many bytes it takes or gives, an interruption, or an error. A call past the end
-- of the list waits. The file that is read is a list of bytes that does not change meanwhile.
-- IO_BUFFER_SIZE is a parameter, size. The fuel of a loop is by the bytes to go and, on output,
-- one turn more for a flush. Opening and closing, seek_out, locks and the versions for Windows are
-- left out.
--
-- The module Yacc models a part of the generator of parsers. Yacc.Nullable is set_nullable of
-- yacc/lr0.c on the array ritem, and pack in Yacc.Derivation is how pack_grammar of yacc/reader.c
-- lays the rules out there. The loop until done has fuel of one more than the symbols, as each pass
-- but the last marks one. Yacc.Warshall is yacc/warshall.c on a matrix of words of 32 bits, a
-- function from a row and the number of a word in it to the word; Yacc.Closure has its edges and
-- their paths. The reader, the automaton, the lookaheads and the output are left out.
--
-- The module Common has the native natural numbers with Boolean tests, integers, lists and the
-- lemmas on them that the parts share. The rest of the runtime, such as the collector and
-- marshalling, the compiler and the other libraries are not modelled.
pub mod Bng
pub mod Channel
pub mod Common
pub mod Generic
pub mod Interp
pub mod Lexing
pub mod Parsing
pub mod Yacc
