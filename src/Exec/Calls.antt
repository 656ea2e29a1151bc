-- ===== src/Exec/Calls.antt =====
-- Calls and returns: src/LinchpinST/src/lpst_run_runtime.c, with `fill_cached_proc_header` of
-- lpst_run_core.c. The frees of saved locals have no effect in the model.
use linchpin.Base.{
  ℕ, zero, suc, ◌+◌, ◌-◌, min, Bool, true, false, ◌&&◌, ◌||◌, Option, none, some, leb, ltb, ◌==◌,
  if◌then◌else◌, u8, u16, Array, update, copy, List, [], ◌∷◌,
}
use linchpin.Ram.{false_sentinel}
use linchpin.Image.{Initializer, Procedure, ProcHeader, CodeModule}
use linchpin.Exec.{
  Frame, Continuation, Snapshot, ExecState, Env, halt_fatal, pop, call_stack_capacity, max_locals,
  jump_snapshot_capacity,
}

unfoldable pub fill_cached_proc_header : Procedure → ProcHeader
fill_cached_proc_header proc = record {
  local_count = proc.local_count;
  header_size = u8 (proc.code_offset + 65536 - proc.start_offset);
  initializers = proc.initializers;
}

unfoldable pub find_procedure_by_offset : List Procedure → ℕ → Option Procedure
find_procedure_by_offset [] code_offset = none
find_procedure_by_offset (p ∷ procedures) code_offset =
    if (p.code_offset == code_offset) || (p.start_offset == code_offset)
    then some p
    else find_procedure_by_offset procedures code_offset

-- The loop of `compute_upper_bound`, from a best bound on.
unfoldable pub lowest_above : List Procedure → ℕ → ℕ → ℕ
lowest_above [] start_offset best = best
lowest_above (p ∷ procedures) start_offset best =
    let so = p.start_offset in
    lowest_above procedures start_offset (if ltb start_offset so && ltb so best then so else best)

unfoldable pub compute_upper_bound : CodeModule → ℕ → ℕ
compute_upper_bound mod_ start_offset = lowest_above mod_.procedures start_offset (u16 mod_.length)

-- Whether a snapshot was taken by the frame of the given identity, at the given call depth.
abbrev pub of_frame : Snapshot → ℕ → ℕ → ℕ → ℕ → ℕ → Bool
of_frame t module_id procedure_index procedure_start_offset local_count call_stack_top =
    t.in_use
    && (t.frame.module_id == module_id)
    && (t.frame.procedure_index == procedure_index)
    && (t.frame.procedure_start_offset == procedure_start_offset)
    && (t.frame.local_count == local_count)
    && (t.call_stack_top == call_stack_top)

abbrev pub no_frame : Frame
no_frame = record {
  module_id = 0;
  procedure_index = 0;
  procedure_start_offset = 0;
  code_offset = 0;
  local_count = 0;
}

-- A snapshot after `memset` to 0.
abbrev pub no_snapshot : Snapshot
no_snapshot = record {
  in_use = false;
  token = 0;
  module_id = 0;
  longjmp_program_counter = 0;
  longjmpr_program_counter = 0;
  tuple_stack_byte = 0;
  frame = no_frame;
  frame_upper_bound = 0;
  frame_locals = none;
  eval_stack_top = 0;
  eval_stack = none;
  call_stack_top = 0;
  call_stack = none;
}

-- The loop visits each slot once.
unfoldable pub release_jump_snapshots_for_frame :
    Array Snapshot → ℕ → ℕ → ℕ → ℕ → ℕ → Array Snapshot
release_jump_snapshots_for_frame snapshots module_id procedure_index procedure_start_offset
      local_count call_stack_top i =
    let t = snapshots i in
    if ltb i jump_snapshot_capacity
      && of_frame t module_id procedure_index procedure_start_offset local_count call_stack_top
    then no_snapshot
    else t

-- `frame_locals`, if there are any, take the current values of the locals.
abbrev pub refreshed : ExecState → Snapshot → Snapshot
refreshed s t = record t {
  frame_locals = elim t.frame_locals [
    | none ↦ none
    | some locals ↦ some (copy s.current_frame.local_count s.local_storage locals)
  ];
}

unfoldable pub refresh_current_frame_jump_snapshots : ExecState → ExecState
refresh_current_frame_jump_snapshots s =
    let f = s.current_frame in
    let refresh : Array Snapshot = λ i.
      let t = s.jump_snapshots i in
      if ltb i jump_snapshot_capacity
        && of_frame t f.module_id f.procedure_index f.procedure_start_offset f.local_count
            s.call_stack_top
      then refreshed s t
      else t in
    record s { jump_snapshots = refresh }

-- The arguments that are popped, the last one first, into `args[0..argc)`.
unfoldable pub pop_arguments : ExecState → Array ℕ → ℕ → Array ℕ × ExecState
pop_arguments s args zero = (args, s)
pop_arguments s args (suc i) = let (v, s') = pop s in pop_arguments s' (update args i v) i

-- The explicit initializers over the locals.
unfoldable pub apply_initializers : List Initializer → ℕ → Array ℕ → Array ℕ
apply_initializers [] local_count locals = locals
apply_initializers (x ∷ xs) local_count locals = apply_initializers xs local_count (
    if ltb x.local_index local_count && ltb x.local_index max_locals
    then update locals x.local_index x.value
    else locals)

-- The locals of a new frame: the sentinel, the initializers, the arguments.
unfoldable pub new_locals : ProcHeader → ℕ → Array ℕ → Array ℕ → Array ℕ
new_locals header argc args storage =
    let cleared : Array ℕ =
      λ i. if ltb i header.local_count && ltb i max_locals then false_sentinel else storage i in
    copy (min argc header.local_count) args
      (apply_initializers header.initializers header.local_count cleared)

-- The continuation that a call pushes.
unfoldable pub continuation_of : ExecState → ℕ → Continuation
continuation_of s return_pc = record {
  module_id = s.current_module_id;
  procedure_index = s.current_frame.procedure_index;
  procedure_start_offset = s.current_frame.procedure_start_offset;
  return_pc = return_pc;
  frame_upper_bound = s.frame_upper_bound;
  saved_locals =
      if s.current_frame.local_count == 0
      then none
      else some (copy s.current_frame.local_count s.local_storage (λ i. 0));
  saved_local_count = s.current_frame.local_count;
  saved_eval_stack_depth = s.eval_stack_top;
}

-- What stands in its place when there is no memory for the locals.
abbrev pub unsaved : ExecState → ℕ → Continuation
unfolding continuation_of
unsaved s return_pc = record (continuation_of s return_pc) {
  saved_locals = none;
  saved_eval_stack_depth = (s.call_stack s.call_stack_top).saved_eval_stack_depth;
}

-- The state inside the procedure, once the locals are saved.
unfoldable pub entered : ExecState → ℕ → ProcHeader → ℕ → ℕ → ℕ → ℕ → ℕ → ℕ → Array ℕ → ExecState
entered s target_module_id header start_offset code_offset upper_bound exported_index return_pc argc
      args =
    record s {
      call_stack = update s.call_stack s.call_stack_top (continuation_of s return_pc);
      call_stack_top = s.call_stack_top + 1;
      local_storage = new_locals header argc args s.local_storage;
      current_module_id = target_module_id;
      program_counter = code_offset;
      current_frame = record {
        module_id = target_module_id;
        procedure_index = exported_index;
        procedure_start_offset = start_offset;
        code_offset = code_offset;
        local_count = header.local_count;
      };
      frame_upper_bound = upper_bound;
    }

-- `malloc` for the saved locals, if there are any to save.
abbrev pub saving : Env → ExecState → Bool × ExecState
saving env s =
    if s.current_frame.local_count == 0
    then (true, s)
    else (env.malloc s.mallocs, record s { mallocs = s.mallocs + 1 })

unfoldable pub enter_procedure :
    Env → ExecState → ℕ → ProcHeader → ℕ → ℕ → ℕ → ℕ → ℕ → ℕ → Array ℕ → Bool × ExecState
enter_procedure env s target_module_id header start_offset code_offset upper_bound exported_index
      return_pc argc args =
    let (saved, s1) = saving env (refresh_current_frame_jump_snapshots s) in
    if leb call_stack_capacity s.call_stack_top
    then (false, halt_fatal s)
    else (if saved
        then (
          true,
          entered s1 target_module_id header start_offset code_offset upper_bound exported_index
              return_pc argc args,
        )
        else (
          false,
          record (halt_fatal s1) {
            call_stack = update s1.call_stack s1.call_stack_top (unsaved s1 return_pc);
          },
        ))
