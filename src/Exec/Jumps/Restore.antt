-- ===== src/Exec/Jumps/Restore.antt =====
-- LONGJMP: `restore_jump_snapshot` of src/LinchpinST/src/lpst_run_runtime.c. `none` stands for a
-- `memcpy` from a pointer that is NULL.
use linchpin.Base.{
  ℕ, Bool, true, false, Option, none, some, ◌>>=◌, ◌==◌, if◌then◌else◌, Array, copy, ltb,
}
use linchpin.Cache.{load_code_page}
use linchpin.Exec.{Continuation, Snapshot, ExecState, Env, halt_fatal, push, current_module}
use linchpin.Exec.Calls.{no_snapshot}
use linchpin.Exec.Jumps.{clone_all, find_jump_snapshot, with_snapshot}

abbrev pub or_else : Array ℕ → Option (Array ℕ) → ℕ → Array ℕ
or_else storage none count = storage
or_else storage (some saved) count = copy count saved storage

-- The machine of a snapshot, without its stacks.
unfoldable pub resumed : ExecState → Snapshot → Bool → ExecState
resumed s t use_return_target = record s {
  current_module_id = t.module_id;
  program_counter =
      if use_return_target then t.longjmpr_program_counter else t.longjmp_program_counter;
  memory = record s.memory { tuple_stack_byte = t.tuple_stack_byte };
  current_frame = t.frame;
  frame_upper_bound = t.frame_upper_bound;
  local_storage = or_else s.local_storage t.frame_locals t.frame.local_count;
  eval_stack_top = t.eval_stack_top;
}

-- `memcpy` of so many elements over an array.
unfoldable pub copy_from : {A : Type 0} → ℕ → Option (Array A) → Array A → Option (Array A)
copy_from count none target = if count == 0 then some target else none
copy_from count (some source) target = some (copy count source target)

-- The callers of the state without their locals.
abbrev pub dropped : ExecState → Array Continuation
dropped s i =
    if ltb i s.call_stack_top
    then record (s.call_stack i) { saved_locals = none }
    else s.call_stack i

unfoldable pub clone_back : Env → ExecState → Snapshot → Option (Bool × Array Continuation × ℕ)
clone_back env s t = elim t.call_stack [
  | none ↦ if t.call_stack_top == 0 then some (true, dropped s, s.mallocs) else none
  | some callers ↦ clone_all env s.mallocs callers (dropped s) t.call_stack_top 0
]

-- The end of a jump, with the callers restored: the page, the value, and the slot's release.
unfoldable pub landed : Env → ExecState → ℕ → Bool → ℕ → ExecState
landed env s slot use_return_target return_value =
    let (cache, _) = load_code_page env.file s.cache (current_module env s) s.program_counter in
    let s1 = record s { cache = cache } in
    let s2 = if use_return_target then push s1 return_value else s1 in
    with_snapshot s2 slot no_snapshot

unfoldable pub restore_from : Env → ExecState → ℕ → Bool → ℕ → Option (Bool × ExecState)
restore_from env s slot use_return_target return_value = do
  let t = s.jump_snapshots slot
  stack ← copy_from t.eval_stack_top t.eval_stack s.eval_stack
  (done, callers, mallocs) ← clone_back env s t
  let s' = record (resumed s t use_return_target) {
    eval_stack = stack;
    call_stack = callers;
    mallocs = mallocs;
  }
  let s'' = record s' { call_stack_top = t.call_stack_top }
  some (
      if done
      then (true, landed env s'' slot use_return_target return_value)
      else (false, halt_fatal (record s' { call_stack_top = 0 })))

abbrev pub restore_at : Env → ExecState → Bool → ℕ → Option ℕ → Option (Bool × ExecState)
restore_at env s use_return_target return_value none = some (false, halt_fatal s)
restore_at env s use_return_target return_value (some slot) =
    restore_from env s slot use_return_target return_value

unfoldable pub restore_jump_snapshot : Env → ExecState → ℕ → Bool → ℕ → Option (Bool × ExecState)
restore_jump_snapshot env s token use_return_target return_value =
    restore_at env s use_return_target return_value (find_jump_snapshot s.jump_snapshots token)
