-- ===== src/Exec/Jumps.antt =====
-- SETJMP: the jump snapshots of src/LinchpinST/src/lpst_run_runtime.c. `none` stands for
-- a `memcpy` from a pointer that is NULL; memory that `malloc` gives holds zeros in the model.
pub mod Restore
use linchpin.Base.{
  ℕ, zero, suc, ◌+◌, Bool, true, false, ◌&&◌, not, Option, none, some, ◌>>=◌, ◌==◌, if◌then◌else◌,
  u16, Array, update, copy, ltb,
}
use linchpin.Ram.{false_sentinel}
use linchpin.Cache.{load_code_page}
use linchpin.Exec.{
  Continuation, Snapshot, ExecState, Env, halt_fatal, push, current_module, jump_snapshot_capacity,
}
use linchpin.Exec.Calls.{no_frame, no_snapshot}

unfoldable pub find_token : Array Snapshot → ℕ → ℕ → ℕ → Option ℕ
find_token snapshots token zero i = none
find_token snapshots token (suc left) i =
    let rest = find_token snapshots token left (i + 1) in
    if (snapshots i).in_use && ((snapshots i).token == token) then some i else rest

unfoldable pub find_jump_snapshot : Array Snapshot → ℕ → Option ℕ
find_jump_snapshot snapshots token = find_token snapshots token jump_snapshot_capacity 0

unfoldable pub find_free : Array Snapshot → ℕ → ℕ → Option ℕ
find_free snapshots zero i = none
find_free snapshots (suc left) i =
    let rest = find_free snapshots left (i + 1) in if not (snapshots i).in_use then some i else rest

-- `free_jump_snapshot_storage`
unfoldable pub free_jump_snapshot_storage : Snapshot → Snapshot
free_jump_snapshot_storage t = record t {
  frame_locals = none;
  eval_stack = none;
  call_stack = none;
  call_stack_top = 0;
  eval_stack_top = 0;
  frame = no_frame;
}

-- A slot that is free, if there is one, is given the token.
unfoldable pub claim : Array Snapshot → ℕ → Option ℕ → Option (ℕ × Array Snapshot)
claim snapshots token none = none
claim snapshots token (some i) =
    some (i, update snapshots i (record no_snapshot { in_use = true; token = token }))

-- The slot that has the token already, or else a free one.
unfoldable pub reuse : Array Snapshot → ℕ → Option ℕ → Option (ℕ × Array Snapshot)
reuse snapshots token none = claim snapshots token (find_free snapshots jump_snapshot_capacity 0)
reuse snapshots token (some i) =
    some (i, update snapshots i (free_jump_snapshot_storage (snapshots i)))

unfoldable pub alloc_jump_snapshot : Array Snapshot → ℕ → Option (ℕ × Array Snapshot)
alloc_jump_snapshot snapshots token = reuse snapshots token (find_jump_snapshot snapshots token)

-- The copy of saved locals that `malloc` gave memory for.
abbrev pub clone_locals : Continuation → ℕ → Option (Array ℕ) → Option (Bool × Continuation × ℕ)
clone_locals c mallocs none = none
clone_locals c mallocs (some locals) =
    some (
      true,
      record c { saved_locals = some (copy c.saved_local_count locals (λ i. 0)) },
      mallocs + 1,
    )

-- Whether the copy was made, the copy, and the calls of `malloc`.
unfoldable pub clone_call_continuation : Env → ℕ → Continuation → Option (Bool × Continuation × ℕ)
clone_call_continuation env mallocs c =
    if c.saved_local_count == 0
    then some (true, c, mallocs)
    else (if env.malloc mallocs
        then clone_locals c mallocs c.saved_locals
        else some (false, record c { saved_locals = none }, mallocs + 1))

-- What the callers' loop goes on with after one copy: the next ones, or nothing after a failure.
unfoldable pub clone_all :
    Env
    → ℕ
    → Array Continuation
    → Array Continuation
    → ℕ
    → ℕ
    → Option (Bool × Array Continuation × ℕ)
clone_all env mallocs source target zero i = some (true, target, mallocs)
clone_all env mallocs source target (suc left) i = do
  (done, c, mallocs') ← clone_call_continuation env mallocs (source i)
  let rest = clone_all env mallocs' source (update target i c) left (i + 1)
  if done then rest else some (false, update target i c, mallocs')

abbrev pub no_continuation : Continuation
no_continuation = record {
  module_id = 0;
  procedure_index = 0;
  procedure_start_offset = 0;
  return_pc = 0;
  frame_upper_bound = 0;
  saved_locals = none;
  saved_local_count = 0;
  saved_eval_stack_depth = 0;
}

abbrev pub with_snapshot : ExecState → ℕ → Snapshot → ExecState
with_snapshot s slot t = record s { jump_snapshots = update s.jump_snapshots slot t }

-- The token, which is not the sentinel, and the next one.
unfoldable pub next_token : ℕ → ℕ × ℕ
next_token token =
    if token == false_sentinel
    then (u16 (token + 1), u16 (u16 (token + 1) + 1))
    else (token, u16 (token + 1))

-- The fields that need no memory.
unfoldable pub keep_frame : ExecState → ℕ → ℕ → ℕ → ExecState
keep_frame s slot protected_offset landing_offset =
    with_snapshot s slot (record (s.jump_snapshots slot) {
      module_id = s.current_module_id;
      longjmp_program_counter = protected_offset;
      longjmpr_program_counter = landing_offset;
      tuple_stack_byte = s.memory.tuple_stack_byte;
      frame = s.current_frame;
      frame_upper_bound = s.frame_upper_bound;
    })

unfoldable pub keep_locals : Env → ExecState → ℕ → Bool × ExecState
keep_locals env s slot =
    let t = s.jump_snapshots slot in
    let s' = record s { mallocs = s.mallocs + 1 } in
    let kept = copy s.current_frame.local_count s.local_storage (λ i. 0) in
    if s.current_frame.local_count == 0
    then (true, s)
    else (if env.malloc s.mallocs
        then (true, with_snapshot s' slot (record t { frame_locals = some kept }))
        else (false, halt_fatal (with_snapshot s' slot (record t { frame_locals = none }))))

unfoldable pub keep_stack : Env → ExecState → ℕ → Bool × ExecState
keep_stack env s slot =
    let t = record (s.jump_snapshots slot) { eval_stack_top = s.eval_stack_top } in
    let s' = record s { mallocs = s.mallocs + 1 } in
    let kept = copy s.eval_stack_top s.eval_stack (λ i. 0) in
    if s.eval_stack_top == 0
    then (true, with_snapshot s slot t)
    else (if env.malloc s.mallocs
        then (true, with_snapshot s' slot (record t { eval_stack = some kept }))
        else (false, halt_fatal (with_snapshot s' slot (record t { eval_stack = none }))))

-- The state once the callers were copied, or one of them could not be.
abbrev pub kept_callers :
    ExecState → ℕ → Snapshot → Bool → Array Continuation → ℕ → Bool × ExecState
kept_callers s slot t done callers mallocs =
    let s' =
      with_snapshot (record s { mallocs = mallocs }) slot
        (record t { call_stack = some callers }) in
    if done then (true, s') else (false, halt_fatal s')

unfoldable pub keep_callers : Env → ExecState → ℕ → Option (Bool × ExecState)
keep_callers env s slot =
    let t = record (s.jump_snapshots slot) { call_stack_top = s.call_stack_top } in
    let s' = record s { mallocs = s.mallocs + 1 } in
    let cloned : Option (Bool × ExecState) = (do
      (done, callers, mallocs) ←
          clone_all env (s.mallocs + 1) s.call_stack (λ i. no_continuation) s.call_stack_top 0
      some (kept_callers s slot t done callers mallocs)) in
    if s.call_stack_top == 0
    then some (true, with_snapshot s slot t)
    else (if env.malloc s.mallocs
        then cloned
        else some (false, halt_fatal (with_snapshot s' slot (record t { call_stack = none }))))

-- A step that is taken if the one before succeeded.
abbrev pub and_then :
    Bool × ExecState → (ExecState → Option (Bool × ExecState)) → Option (Bool × ExecState)
and_then (done, s) next = if done then next s else some (false, s)

-- The rest of `save_jump_snapshot`, in the slot that was allocated, if any was.
unfoldable pub save_in :
    Env → ExecState → ℕ → ℕ → ℕ → Option (ℕ × Array Snapshot) → Option (Bool × ExecState)
save_in env s token protected_offset landing_offset none = some (false, halt_fatal s)
save_in env s token protected_offset landing_offset (some (slot, snapshots)) =
    let s1 =
      keep_frame (record s { jump_snapshots = snapshots }) slot protected_offset landing_offset in
    and_then (keep_locals env s1 slot) (λ s2. and_then (keep_stack env s2 slot) (λ s3. do
      (done, s4) ← keep_callers env s3 slot
      some (if done then (true, push s4 token) else (false, s4))))

unfoldable pub save_jump_snapshot : Env → ExecState → ℕ → ℕ → Option (Bool × ExecState)
save_jump_snapshot env s protected_offset landing_offset =
    let (token, next) = next_token s.next_jump_token in
    save_in env (record s { next_jump_token = next }) token protected_offset landing_offset
      (alloc_jump_snapshot s.jump_snapshots token)
