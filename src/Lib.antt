-- ===== src/Lib.antt =====
-- nybit is a compiler back end in C: a textual intermediate representation is parsed into modules
-- of functions, optimised, selected to machine instructions of x86-64 and AArch64, and written as
-- object files, which its linker joins. This library models the parts below and proves what they
-- promise.
--
-- Base: shared names, lists and options over the native numbers, bit operations as arithmetic, and
-- `Outcome`, what a call of C code comes to: a value, an abort, or a fault (behaviour that C leaves
-- undefined, such as an index out of range or a null pointer that is read).
-- Word: 64-bit patterns and their signed readings.
-- Support (src/support/arena.c): Memory has the counters `Ny_Mem_Tracker` with `ny_alloc`,
-- `ny_realloc` and `ny_free`, and the capacity that `ny_buf_grow` leaves; Arena has the arena, each
-- block as its capacity and its use, with `ny_arena_alloc`.
-- Ir (include/nybit/ir.h, src/ir): Opcode (instruction.c); Types (types.c), with structs and their
-- layout in Types.Struct; Function (function.c), the arrays of a function, with the removal of an
-- instruction in Function.Remove; Block (block.c), the edges; Rewire (function.c), removing,
-- splitting and merging blocks. A C array with its count is a list, an id is an index into it, and
-- an array holds less than 2^32 entries, so that no id wraps. A pointer that the code checks for
-- null is an `Option`; an index that it does not check faults out of range. Function.Chain says when
-- a block holds a list of instructions: the links in both directions, the ends and the count.
-- Opt (src/opt): Common (common.c), Fold (const_fold.c) and CopyProp (copy_prop.c), with the pass in
-- CopyProp.Pass; Fates says what a pass may do to the instructions. Operands are
-- the bit patterns of `int64_t`; a signed result that does not fit is `undefined`, as in C.
-- Opt.Reference says, independently of the code, what each instruction means at a width. Dce (dce.c)
-- and Gvn (gvn.c) are passes over whole functions: dead code elimination counts the uses anew, and
-- value numbering takes the dominator tree that the analysis manager holds.
-- Analysis (src/analysis): UseDef (use_def.c), the counts, definitions and places of uses; Cfg
-- (cfg.c), the depth-first walk over the blocks with its stack, marks, post order and back edges,
-- where Cfg.Reach has the paths of the graph that it is measured against; and Dominator
-- (dominator.c), the questions to a tree and the intersection that builds one.
-- Target.Aarch64 (src/target/aarch64/aarch64_encode.c): Encode has the encoder of an instruction,
-- Buffer the code buffer, Patch the encoder of a function, which patches the branches at last. An
-- operand is a tagged union, and reading another member than the stored one is a fault; diagnostics
-- are left out.
-- Parser (src/parser): Opcodes has the table of mnemonics of parser.c; Lexer is lexer.c, over the
-- bytes that are left of the source.
-- Its line and column are `int`s, which C lets overflow behind 2^31 - 1; theorems on them ask for a
-- source that is shorter.
-- Link.Reloc (src/nylink/nylink_reloc.c): the relocations that patch one word, each with the
-- parts of the linker's context that its arm reads. It shares the words of the code buffer.
-- Examples: runs at concrete inputs.
--
-- The passes work on functions through the operations of Ir.Function, the parser makes functions by
-- them, and all of them get their memory from Support.
--
-- Loops that no list bounds run on fuel. The loops of the lexer take the number of bytes left, of
-- which each turn consumes one at least; the walks along `next` take one more than the number of
-- instructions, and fault where that is not enough; `ny_buf_grow` doubles at most 64 times; and
-- `resolve_copy` has its own bound of 64. The worklist of dead code elimination takes one round for
-- each instruction and each value; value numbering takes one more than the number of instructions
-- for a block; the walk over the blocks takes one for each block and each successor; a climb in the
-- dominator tree takes the number of blocks, and an intersection twice as many rounds.
--
-- `snprintf`, `strtoll` and `strtod` are not part of the repository: what they return are the
-- parameters `print_u32`, `strtoll` and `strtod`. An allocation that fails aborts the program, and
-- is left out.
-- Not modelled: machine code selection, register allocation and object files of the targets
-- (src/machine, the rest of src/target), the rest of the linker (src/nylink), the JIT (src/nyjit),
-- the drivers (src/main.c, src/nygen), liveness analysis and the construction of the dominator tree
-- (src/analysis), the other passes, the floats of constant folding, whose arithmetic is the
-- machine's, and debug locations.
pub mod Base
pub mod Word
pub mod Support
pub mod Ir
pub mod Analysis
pub mod Opt
pub mod Target
pub mod Link
pub mod Parser
pub mod Examples
