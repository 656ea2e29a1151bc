-- ===== src/Exec/Entry.antt =====
-- The two kinds of call, and the return: `enter_near_call`, `parse_private_header`,
-- `enter_far_call` and `do_return` of src/LinchpinST/src/lpst_run_runtime.c.
use linchpin.Base.{
  ℕ, zero, suc, ◌+◌, ◌-◌, ◌*◌, ◌/◌, ◌%◌, ◌^◌, Bool, true, false, ◌||◌, Option, none, some, ◌>>=◌,
  bit_or, ltb, ◌==◌, if◌then◌else◌, u8, u16, u32, Array, update, copy, List, [], ◌∷◌, ◌++◌, length,
  get_elem?,
}
use linchpin.Image.{Initializer, Procedure, ProcHeader, CodeModule}
use linchpin.Cache.{read_code_byte_at, CodeCache}
use linchpin.Exec.{Continuation, ExecState, Env, halt_fatal, push, current_module, max_locals}
use linchpin.Exec.Calls.{
  fill_cached_proc_header, find_procedure_by_offset, compute_upper_bound, pop_arguments,
  enter_procedure, release_jump_snapshots_for_frame,
}

-- The state after a byte outside the instruction stream was read, or could not be.
unfoldable pub inspected : ExecState → CodeCache × Option ℕ → ℕ × ExecState
inspected s (cache, none) = (0, record (halt_fatal s) { cache = cache })
inspected s (cache, some value) = (value, record s { cache = cache })

unfoldable pub read_code_byte : Env → ExecState → CodeModule → ℕ → ℕ × ExecState
read_code_byte env s mod_ offset =
    inspected s (read_code_byte_at env.file s.cache mod_ (u16 offset))

-- `(uint16_t)(int16_t)(int8_t)byte`
abbrev pub sign_extend : ℕ → ℕ
sign_extend byte = if ltb byte 128 then byte else byte + 65280

-- The value of one initializer, with the cursor behind it.
unfoldable pub initializer_value : Env → ExecState → CodeModule → Bool → ℕ → ℕ × ℕ × ExecState
initializer_value env s mod_ true cursor =
    let (byte, s1) = read_code_byte env s mod_ cursor in (sign_extend byte, u32 (cursor + 1), s1)
initializer_value env s mod_ false cursor =
    let (lo, s1) = read_code_byte env s mod_ cursor in
    let (hi, s2) = read_code_byte env s1 mod_ (cursor + 1) in
    (u16 (bit_or lo (hi * 2 ^ 8)), u32 (cursor + 2), s2)

-- The loop over the initializers, which ends at a marker with bit 7; `none` when the fuel ends
-- first. No more than 64 are kept.
unfoldable pub parse_initializers :
    Env
    → CodeModule
    → ℕ
    → ExecState
    → ℕ
    → List Initializer
    → Option (List Initializer × ℕ × ExecState)
parse_initializers env mod_ zero s cursor found = none
parse_initializers env mod_ (suc fuel) s cursor found =
    let (marker, s1) = read_code_byte env s mod_ cursor in
    let (value, cursor', s2) =
      initializer_value env s1 mod_ (marker / 2 ^ 6 % 2 == 1) (u32 (cursor + 1)) in
    let entry : Initializer = record { local_index = marker % 64; value = value } in
    let found' = if ltb (length found) 64 then found ++ (entry ∷ []) else found in
    let rest = parse_initializers env mod_ fuel s2 cursor' found' in
    if marker / 2 ^ 7 % 2 == 1 then some (found', cursor', s2) else rest

-- The header, the offset of the first instruction, and the state.
unfoldable pub parse_private_header :
    ℕ → Env → ExecState → CodeModule → ℕ → Option (ProcHeader × ℕ × ExecState)
parse_private_header fuel env s mod_ offset = do
  let (header_byte, s1) = read_code_byte env s mod_ offset
  (initializers, cursor, s2) ←
      if header_byte / 2 ^ 7 % 2 == 1
      then parse_initializers env mod_ fuel s1 (offset + 1) []
      else some ([], offset + 1, s1)
  let header_size = u8 (cursor + 2 ^ 32 - offset)
  some (
    record {
      local_count = header_byte % 128;
      header_size = header_size;
      initializers = initializers;
    },
    u16 (offset + header_size),
    s2,
  )

-- `argc` is cut to the locals that there can be.
abbrev pub clamped : ℕ → ℕ
clamped argc = if ltb max_locals argc then max_locals else argc

-- The call of a procedure of the table, or of a private one whose header is parsed.
unfoldable pub enter_found :
    ℕ
    → Env
    → ExecState
    → CodeModule
    → ℕ
    → ℕ
    → ℕ
    → Array ℕ
    → Option Procedure
    → Option (Bool × ExecState)
enter_found fuel env s mod_ target_offset argc return_pc args (some proc) = some (
    enter_procedure env s mod_.module_id (fill_cached_proc_header proc) proc.start_offset
      proc.code_offset proc.upper_bound proc.exported_index return_pc argc args)
enter_found fuel env s mod_ target_offset argc return_pc args none = do
  (header, code_offset, s') ← parse_private_header fuel env s mod_ target_offset
  some (
      enter_procedure env s' mod_.module_id header target_offset code_offset
        (compute_upper_bound mod_ target_offset) 0xffff return_pc argc args)

-- `none` when the fuel of the header's loop ends.
unfoldable pub enter_near_call : ℕ → Env → ExecState → ℕ → ℕ → ℕ → Option (Bool × ExecState)
enter_near_call fuel env s target_offset argc return_pc =
    let mod_ = current_module env s in
    let (args, s1) = pop_arguments s (λ i. 0) (clamped argc) in
    enter_found fuel env s1 mod_ target_offset (clamped argc) return_pc args
      (find_procedure_by_offset mod_.procedures target_offset)

-- The call of the procedure that the selector names, if there is one.
unfoldable pub enter_selected :
    Env → ExecState → ℕ → ℕ → ℕ → Array ℕ → Option Procedure → Bool × ExecState
enter_selected env s target_module_id argc return_pc args none = (false, halt_fatal s)
enter_selected env s target_module_id argc return_pc args (some proc) =
    enter_procedure env s target_module_id (fill_cached_proc_header proc) proc.start_offset
      proc.code_offset proc.upper_bound proc.exported_index return_pc argc args

unfoldable pub enter_far_call : Env → ExecState → ℕ → ℕ → ℕ → Bool × ExecState
enter_far_call env s selector argc return_pc =
    let target_module_id = selector / 2 ^ 8 in
    let proc_index = selector % 256 in
    let (args, s1) = pop_arguments s (λ i. 0) (clamped argc) in
    if ltb target_module_id 1 || ltb env.image.module_count target_module_id
    then (false, halt_fatal s1)
    else enter_selected env s1 target_module_id (clamped argc) return_pc args
        (get_elem? (env.image.modules (target_module_id - 1)).procedures proc_index)

unfoldable pub push_all : ExecState → List ℕ → ExecState
push_all s [] = s
push_all s (v ∷ results) = push_all (push s v) results

-- The locals that a continuation restores.
abbrev pub restored_locals : Continuation → Option (Array ℕ) → Array ℕ → Array ℕ
restored_locals cont none storage = storage
restored_locals cont (some saved) storage = copy cont.saved_local_count saved storage

-- `code_offset` of a frame that is returned to.
abbrev pub code_offset_of : Option Procedure → ℕ → ℕ
code_offset_of none procedure_start_offset = procedure_start_offset
code_offset_of (some proc) procedure_start_offset = proc.code_offset

-- The state after the top continuation is restored, before the results are pushed.
unfoldable pub returned : Env → ExecState → Continuation → ExecState
returned env s cont = record s {
  call_stack_top = s.call_stack_top - 1;
  call_stack = update s.call_stack (s.call_stack_top - 1) (record cont { saved_locals = none });
  current_module_id = cont.module_id;
  program_counter = cont.return_pc;
  frame_upper_bound = cont.frame_upper_bound;
  local_storage = restored_locals cont cont.saved_locals s.local_storage;
  current_frame = record {
    module_id = cont.module_id;
    procedure_index = cont.procedure_index;
    procedure_start_offset = cont.procedure_start_offset;
    code_offset =
        code_offset_of
          (find_procedure_by_offset (env.image.modules (cont.module_id - 1)).procedures
            cont.procedure_start_offset)
          cont.procedure_start_offset;
    local_count = cont.saved_local_count;
  };
  eval_stack_top = cont.saved_eval_stack_depth;
}

-- The first result, or 0.
abbrev pub first_or_zero : List ℕ → ℕ
first_or_zero [] = 0
first_or_zero (v ∷ results) = v

unfoldable pub do_return : Env → ExecState → List ℕ → ExecState
do_return env s results =
    let f = s.current_frame in
    let s1 = record s {
      last_return_word_count = length results;
      jump_snapshots =
          release_jump_snapshots_for_frame s.jump_snapshots s.current_module_id f.procedure_index
            f.procedure_start_offset f.local_count s.call_stack_top;
    } in
    if s.call_stack_top == 0
    then record s1 { is_halted = true; halt_code = first_or_zero results }
    else push_all (returned env s1 (s.call_stack (s.call_stack_top - 1))) results
