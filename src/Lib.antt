-- ===== src/Lib.antt =====
-- Tatlang: a compiler for a small language, and the machine that runs what it compiles. The
-- stages are the frontend (text to tokens), the recursive parser (tokens to a tree), the midend
-- (constant folding on the tree), the backend (the tree to an assembly file), the assembler (the
-- file to machine code) and the SPU, a stack machine. Each stage takes what the one before it
-- returns. This library models all of them, and the tree that they share.
--
-- Files and what they model:
--   Prelude: shared names of the libraries, Boolean tests and lists over the native numbers.
--   Double: Utils/src/utils.cpp, `cmp_double`. The type `double`, its arithmetic and <math.h> are
--     a parameter, the record `Double`, of which no laws are assumed.
--   Tree: B_tree/include/b_tree.h and b_tree.cpp. A pointer to a node is the tree that it points
--     to, NULL is `null`; the stages share no nodes, so that a tree as a value loses nothing.
--   Midend: Language/Midend/src/midend.cpp, midend_secondary.cpp and dsl/def_triv_dsl.h. The
--     globals `change_flag` and `*error_code` are passed along. `Midend/Rewriting` states the rules
--     of the optimizer; its children, Shrinks, Settled and Accepted hold the proofs.
--   Parser: Recursive_parser/src. `Parser/State` has the globals (the tokens from `id` on, and
--     `sce_debt`) and the macros, `Parser/Descent` and `Parser/Descent/Commands` the functions that
--     call one another, `Parser` the others. `Parser/Grammar` and `Parser/Programs` state the
--     grammar of the programs that the parser reads, and what its phrases are as tokens and as
--     trees. README.md has more: chains and sums of comparisons, where the parser reads one
--     comparison of two products, and empty lists of arguments and parameters.
--   Backend: Language/Backend/src. `Backend/Lines` has the lines of the assembly file and how a
--     function ends, `Backend/Names` the name tables, `Backend/Codegen` and its children the
--     functions that write lines, `Backend/Text` what is printed for a line; `label_ct` is passed
--     along. Labels, Neat, Resolved, Landing, Convention and Global hold the proofs. Labels are data:
--     two that differ may be printed as the same text, where a function is called `break_0`.
--   Pipeline: Language_test/main.cpp, from `parse_tokens` to the assembly file; `Pipeline/Source`
--     puts `tokenize` in front of it, and `Pipeline/Machine` joins the backend, the assembler and the
--     machine.
--   Frontend: Language/Frontend/src. `Frontend/Symbols` has the tests on symbols and what moves
--     along the text, `Frontend/Keywords` the keywords, `Frontend/Lexer` the array of tokens and
--     the loop of `tokenize`. A pointer into the text is the rest of the array from there on, and
--     what fgetwc decodes and swscanf reads are arguments. `Frontend/Spelling` says which texts
--     spell which tokens; the other children hold the proofs.
--   Stack: CPU/Stack/src/stack.cpp, on the array of `capacity` doubles. The memory that realloc
--     adds is an argument of each call. Sound, Refines, Runs, Poison and Hash hold the proofs.
--   Spu: CPU/CPU/SPU/src and CPU/Global/include/cmd_definitions.h. `Spu/Vm` has the machine,
--     `Spu/Commands` the commands and the loop of `process`. How eight bytes make a double, the
--     conversion of a double to an unsigned number, and the driver are arguments. Sound, Steps and
--     Keeps are on the memory of the machine, Loops on where it stays for ever, Arithmetic,
--     Expressions and Evaluates on the code of expressions.
--   FileParser: File_parser/src/file_parser.cpp, on the bytes of the file. A pointer to a line is the
--     rest of the buffer from there on. Lines and Unended hold the proofs.
--   Assembler: CPU/CPU/Assembler/src. `Assembler/Buffer` has what writes to the byte code,
--     `Assembler/Commands` the lines, `Assembler/Labels` the labels, the cut of the code and
--     `compile`, from the text to the bytes of the binary file. What sscanf reads and the bytes of a
--     double are arguments. Writes, Expressions, Evaluates, Full, Missing, Reduced and
--     Fixed hold the proofs.
--   Tests: the theorems at concrete inputs, over an arithmetic of natural numbers.
--
-- Errors are values: NULL in the parser is `null` or `none`, an error code stands in the state of
-- the midend and in the outcome of the backend. Where C is undefined (a read behind the tokens,
-- through NULL, or of a table that nothing initialised), the outcome is `overrun` or `fault`; a
-- function of the stack, the assembler or the file parser that leaves its array returns `none`, and `tokenize` ends in
-- `fault` or, at the array of tokens, `overflow`.
--
-- Fuel: a call or a round of a loop of the parser costs one unit, and `parse_tokens` gives ten
-- for each token and ten more; Parser/Programs/Fuel shows that this is enough for the grammar. The
-- loop of `optimize` gets one unit more than the tree has nodes, since each pass that changes the
-- tree makes it smaller.
--
-- The loop of `tokenize` gets one round more than the text has cells, since every round passes a
-- cell at least. The loop of `process` may run for ever, as the program may; theorems on it say how
-- many rounds a piece of code takes, or hold for every number of rounds.
--
-- FOR_END of Utils/include/utils.h leaves a loop of the assembler after 10000 rounds. `process_lines`,
-- `find_label`, `arrange_jumps` and `find_tale` of `Assembler` do the same; the loops that write a
-- few bytes never get there, and start the counter again.
--
-- Not modelled: the drivers (CPU/Drivers), which read and write files around the assembler and the
-- machine, logs, dumps and the debugger, the canaries and stored hashes of a stack, and failing
-- allocations. `Assembler/Labels` has the whole of `compile`; the theorem on values is about the
-- lines of an expression, not yet about jumps, calls and the code of a whole program.
pub mod Prelude
pub mod Double
pub mod Tree
pub mod Midend
pub mod Backend
pub mod Parser
pub mod Pipeline
pub mod Frontend
pub mod Stack
pub mod Spu
pub mod FileParser
pub mod Assembler
pub mod Tests
