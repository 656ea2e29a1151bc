-- ===== src/Lib.antt =====
-- The core of LinchpinST, the interpreter in C of the Cornerstone virtual machine
-- (src/LinchpinST): its memory, its allocator, its bytecode cache, its calls and its set-up.
--
-- The parts, and the file that models each:
--
-- Ram.antt: the four banks of 32 KB and their accessors, by src/LinchpinST/src/lpst_run_core.c
--   (`read_ram_byte` to `write_ram_word`). The state is the banks, a function to bytes; an access
--   outside them, which C leaves undefined, is `none`.
-- Aggregate.antt: vectors and tuples by their handles, by the same file and by `encode_handle` of
--   src/LinchpinST/src/lpst_run_runtime.c.
-- BitField.antt: src/LinchpinST/src/lpst_run_dispatch_bits.c.
-- Heap.antt: `allocate_vector`, `allocate_tuple` and `release_vector` of lpst_run_runtime.c, and
--   the TPOP instruction of lpst_run_dispatch.c. The record `Memory` holds the RAM and the
--   allocator's fields of `lpst_exec_state`.
-- Cache.antt: the page cache of lpst_run_core.c, from `bind_current_code_page` to `fetch_byte`.
--   The record `CodeCache` holds the cache fields of `lpst_exec_state`; the pointer to the bound
--   page is the number of its slot. The OBJ file, read by `fseek` and `fread`, is the parameter
--   `ObjFile`.
-- Image.antt: the records of src/LinchpinST/include/lpst_image.h that the executor reads.
-- Loader.antt: src/LinchpinST/src/lpst_image.c, from the opened files to a `LoadedImage`. A run
--   gives a value, a failure, or `undefined` where the code reads beyond a buffer; the calls of
--   `malloc` are counted along. The files and their lengths are parameters.
-- Exec.antt: the whole state of the machine, with the evaluation stack of lpst_exec.c and the
--   fetching of operands. Exec/Calls.antt and Exec/Entry.antt are the calls and the return of
--   lpst_run_runtime.c, Exec/Jumps.antt the snapshots of SETJMP and LONGJMP. `malloc` is a
--   parameter that says of each call in turn whether it succeeds.
-- Setup.antt: lpst_vm.c, and the parts of lpst_exec.c that size the code cache and start the
--   allocator.
-- Exec/Bounded.antt and Instr/Bounded.antt: the bounds of the machine's arrays, operation by
--   operation and instruction by instruction.
-- Instr.antt: instructions of src/LinchpinST/src/lpst_run.c on locals and numbers;
--   Instr/Vectors.antt, Instr/Jumps.antt, Instr/Words.antt, Instr/Blocks.antt, Instr/Control.antt,
--   Instr/Fields.antt and Instr/Text.antt hold the others, with those of lpst_run_dispatch.c.
--   Instr/Dispatch.antt has the two opcode switches as tables, and Instr/Run.antt the loop.
--   Instr/Order.antt has the comparisons of strings and keys of lpst_run_io.c.
-- Extract.antt: the measuring and selecting of packed records of lpst_run_dispatch_ext37.c.
-- Base.antt: the names, tests, casts and arrays that they share, and the laws of bits.
--
-- The parts interact as in the code: an allocation clears its block through the RAM; an instruction
-- fetch goes through the cache to the file; a call saves the locals and refreshes the snapshots of
-- the calling frame; a return releases the snapshots of the frame that ends. `ExecState` holds
-- `Memory` and `CodeCache`, and every operation takes a state and returns one.
--
-- Numbers are natural numbers with the casts to 8, 16 and 32 bits written out. Loops over RAM
-- ranges take fuel of one round for each byte and one more, the pinning of a module one for each of
-- its bytes and one more, the allocation of the cache one for each slot first asked for; each is
-- shown to suffice where a result is stated. The loop over the initializers of a private header has
-- no bound in the code, which ends it at a marker only; there the fuel is an argument, and `none`
-- the answer when it ends, and so for the fields of a sort key. A search for a record takes the words
-- that remain, of which each record has at least one.
--
-- The loop of `lpst_run` takes fuel of one round for each instruction; under an instruction limit the
-- limit and one more suffice. The instructions that reach module globals, the host, channels or real
-- numbers are a parameter, the record `Others`, of the switches; `outside` fills it with instructions
-- that give no state, so that a run stands still at them, which `Stuck` of Instr/Run.antt describes
-- with the machine that has been reached. So does a run at what C leaves undefined, and where the
-- fuel of a loop inside an instruction ends.
--
-- Not modelled: those instructions themselves, the paths that the loader keeps, hosts and terminals,
-- the tracing, and the message that goes with a halt. What a fatal halt leaves in the state is
-- modelled: `is_halted` and the code 0xFFFF.
pub mod Base
pub mod Aggregate
pub mod BitField
pub mod Cache
pub mod Exec
pub mod Extract
pub mod Heap
pub mod Image
pub mod Instr
pub mod Loader
pub mod Ram
pub mod Setup
