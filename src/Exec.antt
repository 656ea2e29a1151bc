-- ===== src/Exec.antt =====
-- The execution state: `lpst_exec_state` and its parts of src/LinchpinST/include/lpst_exec.h, the
-- evaluation stack of src/LinchpinST/src/lpst_exec.c, and the fetching of bytecode of
-- src/LinchpinST/src/lpst_run_core.c. Tracing and the diagnostics on stderr are left out.
pub mod Stack
pub mod Calls
pub mod Entry
pub mod Jumps
pub mod Tokens
pub mod Returns
pub mod Samples
pub mod Bounded
mod Tests
use linchpin.Base.{
  ℕ, zero, suc, ◌+◌, ◌-◌, ◌*◌, ◌%◌, ◌^◌, Bool, true, false, Option, none, some, bit_or, leb, ltb,
  ◌==◌, if◌then◌else◌, u16, u32, Array, update,
}
use linchpin.Image.{Image, CodeModule}
use linchpin.Cache.{ObjFile, CodeCache, fetch_at}
use linchpin.Heap.{Memory}

abbrev pub eval_stack_capacity : ℕ
eval_stack_capacity = 1024

abbrev pub call_stack_capacity : ℕ
call_stack_capacity = 256

abbrev pub max_locals : ℕ
max_locals = 128

abbrev pub jump_snapshot_capacity : ℕ
jump_snapshot_capacity = 64

-- `lpst_vm_frame`. Its `locals` pointer always is the state's `local_storage`, or in a snapshot the
-- snapshot's `frame_locals`, and is left out.
pub record Frame : Type 0 where
  pub module_id : ℕ
  pub procedure_index : ℕ
  pub procedure_start_offset : ℕ
  pub code_offset : ℕ
  pub local_count : ℕ

-- `saved_locals` is `none` where the code has NULL.
pub record Continuation : Type 0 where
  pub module_id : ℕ
  pub procedure_index : ℕ
  pub procedure_start_offset : ℕ
  pub return_pc : ℕ
  pub frame_upper_bound : ℕ
  pub saved_locals : Option (Array ℕ)
  pub saved_local_count : ℕ
  pub saved_eval_stack_depth : ℕ

-- `lpst_jump_snapshot`, with `none` for the pointers that are NULL.
pub record Snapshot : Type 0 where
  pub in_use : Bool
  pub token : ℕ
  pub module_id : ℕ
  pub longjmp_program_counter : ℕ
  pub longjmpr_program_counter : ℕ
  pub tuple_stack_byte : ℕ
  pub frame : Frame
  pub frame_upper_bound : ℕ
  pub frame_locals : Option (Array ℕ)
  pub eval_stack_top : ℕ
  pub eval_stack : Option (Array ℕ)
  pub call_stack_top : ℕ
  pub call_stack : Option (Array Continuation)

-- The state. `mallocs` counts the calls of `malloc` and `calloc` that it has made.
pub record ExecState : Type 0 where
  pub memory : Memory
  pub cache : CodeCache
  pub current_module_id : ℕ
  pub program_counter : ℕ
  pub frame_upper_bound : ℕ
  pub is_halted : Bool
  pub halt_code : ℕ
  pub last_return_word_count : ℕ
  pub program_globals : Array ℕ
  pub program_global_count : ℕ
  pub current_frame : Frame
  pub local_storage : Array ℕ
  pub eval_stack : Array ℕ
  pub eval_stack_top : ℕ
  pub call_stack : Array Continuation
  pub call_stack_top : ℕ
  pub next_jump_token : ℕ
  pub jump_snapshots : Array Snapshot
  pub mallocs : ℕ

-- What the machine runs on: the image, the OBJ file, and the C library's `malloc`, which says of
-- each call in turn whether it succeeds.
pub record Env : Type 0 where
  pub image : Image
  pub file : ObjFile
  pub malloc : ℕ → Bool

-- `is_halted = true; halt_code = 0xFFFF`
abbrev pub halt_fatal : ExecState → ExecState
halt_fatal s = record s { is_halted = true; halt_code = 0xffff }

unfoldable pub push : ExecState → ℕ → ExecState
push s value = if leb eval_stack_capacity s.eval_stack_top then halt_fatal s else record s {
  eval_stack = update s.eval_stack s.eval_stack_top value;
  eval_stack_top = s.eval_stack_top + 1;
}

unfoldable pub pop : ExecState → ℕ × ExecState
pop s =
    if s.eval_stack_top == 0
    then (0, halt_fatal s)
    else (s.eval_stack (s.eval_stack_top - 1), record s { eval_stack_top = s.eval_stack_top - 1 })

unfoldable pub peek : ExecState → ℕ
peek s = if s.eval_stack_top == 0 then 0 else s.eval_stack (s.eval_stack_top - 1)

abbrev pub current_module : Env → ExecState → CodeModule
current_module env s = env.image.modules (s.current_module_id - 1)

-- The state after a byte was read, or could not be.
unfoldable pub fetched : ExecState → CodeCache × Option ℕ → ℕ × ExecState
fetched s (cache, none) =
    (0, record (halt_fatal s) { cache = cache; program_counter = u16 (s.program_counter + 1) })
fetched s (cache, some value) =
    (value, record s { cache = cache; program_counter = u16 (s.program_counter + 1) })

unfoldable pub fetch_byte : Env → ExecState → ℕ × ExecState
fetch_byte env s = fetched s (fetch_at env.file s.cache (current_module env s) s.program_counter)

unfoldable pub fetch_le16 : Env → ExecState → ℕ × ExecState
fetch_le16 env s =
    let (lo, s1) = fetch_byte env s in
    let (hi, s2) = fetch_byte env s1 in (u16 (bit_or lo (hi * 2 ^ 8)), s2)

-- `instruction_start + 2 + (int8_t)selector`, cast to 16 bits.
abbrev pub short_target : ℕ → ℕ → ℕ
short_target instruction_start selector =
    if ltb selector 128
    then u16 (instruction_start + 2 + selector)
    else u16 (instruction_start + 2 + selector + 65536 - 256)

unfoldable pub decode_jump_target : Env → ExecState → ℕ → ℕ × ExecState
decode_jump_target env s instruction_start =
    let (selector, s1) = fetch_byte env s in
    if selector == 0 then fetch_le16 env s1 else (short_target instruction_start selector, s1)
