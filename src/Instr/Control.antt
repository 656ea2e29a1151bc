-- ===== src/Instr/Control.antt =====
-- Calls, returns, halts and pages: cases of the opcode switch of src/LinchpinST/src/lpst_run.c, and
-- the extended instructions of lpst_run_dispatch.c on snapshots, results and pinned pages.
use linchpin.Base.{
  ℕ, zero, suc, ◌+◌, ◌-◌, ◌%◌, Bool, true, false, Option, none, some, ltb, if◌then◌else◌, u16, List,
  [], ◌∷◌,
}
use linchpin.Cache.{CodeCache, load_code_page, pin_module_code_pages, unpin_module_code_pages}
use linchpin.Exec.{
  ExecState, Env, halt_fatal, pop, fetch_byte, fetch_le16, current_module, max_locals,
}
use linchpin.Exec.Entry.{enter_near_call, enter_far_call, do_return}
use linchpin.Exec.Jumps.{save_jump_snapshot}
use linchpin.Exec.Jumps.Restore.{restore_jump_snapshot}

-- A call says whether it entered the procedure; the instruction does not ask.
abbrev pub ignoring : Option (Bool × ExecState) → Option ExecState
ignoring none = none
ignoring (some (done, s)) = some s

unfoldable pub call_near : ℕ → Env → ℕ → ExecState → Option ExecState
call_near fuel env argc s =
    let (target, s1) = fetch_le16 env s in
    ignoring (enter_near_call fuel env s1 target argc s1.program_counter)

unfoldable pub call_near_popped : ℕ → Env → ExecState → Option ExecState
call_near_popped fuel env s =
    let (argc, s1) = fetch_byte env s in
    let (target, s2) = pop s1 in
    ignoring (enter_near_call fuel env s2 target argc s2.program_counter)

unfoldable pub call_far : Env → ℕ → ExecState → ExecState
call_far env argc s =
    let (selector, s1) = fetch_le16 env s in
    (enter_far_call env s1 selector argc s1.program_counter).1

unfoldable pub call_far_popped : Env → ExecState → ExecState
call_far_popped env s =
    let (argc, s1) = fetch_byte env s in
    let (selector, s2) = pop s1 in (enter_far_call env s2 selector argc s2.program_counter).1

unfoldable pub return_popped : Env → ExecState → ExecState
return_popped env s = let (result, s1) = pop s in do_return env s1 (result ∷ [])

-- The results that RETURNN pops, in the order in which they are pushed again.
unfoldable pub pop_results : ExecState → ℕ → List ℕ → List ℕ × ExecState
pop_results s zero results = (results, s)
pop_results s (suc left) results = let (v, s') = pop s in pop_results s' left (v ∷ results)

-- RETURNN keeps them in an array of 128: `none` is a write beyond it.
unfoldable pub return_many : Env → ExecState → Option ExecState
return_many env s =
    let (count, s1) = fetch_byte env s in
    let (results, s2) = pop_results s1 count [] in
    if ltb max_locals count then none else some (do_return env s2 results)

unfoldable pub halt : Env → ExecState → ExecState
halt env s = let (code, s1) = fetch_le16 env s in record s1 { is_halted = true; halt_code = code }

-- NEXTB, from the start of the instruction.
unfoldable pub next_page : Env → ℕ → ExecState → ExecState
next_page env instruction_start s =
    let pc = u16 (instruction_start - instruction_start % 256 + 0x100) in
    let (cache, _) = load_code_page env.file s.cache (current_module env s) pc in
    record s { program_counter = pc; cache = cache }

-- LONGJMPR and LONGJMP.
unfoldable pub longjmpr : Env → ExecState → Option ExecState
longjmpr env s =
    let (return_val, s1) = pop s in
    let (token, s2) = pop s1 in ignoring (restore_jump_snapshot env s2 token true return_val)

unfoldable pub longjmp : Env → ExecState → Option ExecState
longjmp env s = let (token, s1) = pop s in ignoring (restore_jump_snapshot env s1 token false 0)

unfoldable pub setjmp : Env → ExecState → Option ExecState
setjmp env s =
    let (op0, s1) = fetch_le16 env s in
    let (op1, s2) = fetch_le16 env s1 in ignoring (save_jump_snapshot env s2 op0 op1)

unfoldable pub discard : ExecState → ℕ → ExecState
discard s zero = s
discard s (suc left) = discard (pop s).1 left

-- The results of the last return, or as many words as the operand says.
unfoldable pub discard_results : ExecState → ExecState
discard_results s = discard s s.last_return_word_count

unfoldable pub discard_many : Env → ExecState → ExecState
discard_many env s = let (count, s1) = fetch_byte env s in discard s1 count

-- The state with the cache after the pages were pinned, or could not be.
abbrev pub pinned_or_halted : ExecState → CodeCache × Bool → ExecState
pinned_or_halted s (cache, true) = record s { cache = cache }
pinned_or_halted s (cache, false) = record (halt_fatal s) { cache = cache }

unfoldable pub pinm : Env → ExecState → ExecState
pinm env s = pinned_or_halted s (
    pin_module_code_pages env.file env.image s.cache s.current_module_id (current_module env s)
      s.program_counter)

unfoldable pub unpinm : Env → ExecState → ExecState
unpinm env s = record s { cache = unpin_module_code_pages env.image s.cache s.current_module_id }
