-- ===== src/Exec/Bounded.antt =====
-- The bounds of the machine's arrays: `eval_stack`, `call_stack`, `local_storage` and the jump
-- snapshots of src/LinchpinST/include/lpst_exec.h, kept by the operations of lpst_exec.c and of
-- src/LinchpinST/src/lpst_run_core.c.
pub mod Frames
pub mod Entries
pub mod Saves
pub mod Restores
use linchpin.Base.{
  ℕ, zero, suc, ◌+◌, ◌-◌, ◌≤◌, ◌<◌, ◌≡◌, refl, ap, arith, Bool, true, false, Option, none, some,
  ◌>>=◌, leb, ltb, ◌==◌, if◌then◌else◌, if-cases, Array, update,
}
use linchpin.Cache.{CodeCache, fetch_at}
use linchpin.Exec.{
  Continuation, Snapshot, ExecState, Env, push, pop, fetched, fetch_byte, fetch_le16,
  current_module, decode_jump_target, short_target,
}

-- A caller's frame that is restored within the arrays.
pub record FitsFrame (c : Continuation) : Type 0 where
  pub locals : c.saved_local_count ≤ 128
  pub depth : c.saved_eval_stack_depth ≤ 1024

-- The callers that a pointer leads to, below the top.
abbrev pub FitsCallers : Option (Array Continuation) → ℕ → Type 0
FitsCallers none top = Unit
FitsCallers (some callers) top = (i : ℕ) → i < top → FitsFrame (callers i)

pub record FitsSnapshot (t : Snapshot) : Type 0 where
  pub locals : t.frame.local_count ≤ 128
  pub stack : t.eval_stack_top ≤ 1024
  pub calls : t.call_stack_top ≤ 256
  pub callers : FitsCallers t.call_stack t.call_stack_top

pub record Within (stack_top call_top local_count : ℕ) (call_stack : Array Continuation)
    (jump_snapshots : Array Snapshot) : Type 0 where
  pub stack : stack_top ≤ 1024
  pub calls : call_top ≤ 256
  pub locals : local_count ≤ 128
  pub callers : (i : ℕ) → i < call_top → FitsFrame (call_stack i)
  pub snapshots : (i : ℕ) → FitsSnapshot (jump_snapshots i)

-- The tops and counts of the state, of its callers and of its snapshots lie within the arrays.
abbrev pub IsBounded : ExecState → Type 0
IsBounded s =
    Within s.eval_stack_top s.call_stack_top s.current_frame.local_count s.call_stack
      s.jump_snapshots

with_stack :
    {top top' calls locals : ℕ} {callers : Array Continuation} {snapshots : Array Snapshot}
    → top' ≤ 1024
    → Within top calls locals callers snapshots
    → Within top' calls locals callers snapshots
with_stack fits b = record {
  stack = fits;
  calls = b.calls;
  locals = b.locals;
  callers = b.callers;
  snapshots = b.snapshots;
}

pub push-IsBounded : (s : ExecState) (value : ℕ) → IsBounded s → IsBounded (push s value)
unfolding push
push-IsBounded s value b =
    if-cases IsBounded (leb 1024 s.eval_stack_top) (λ full. b) (λ room. with_stack (ground arith) b)

pub pop-IsBounded : (s : ExecState) → IsBounded s → IsBounded (pop s).1
unfolding pop
pop-IsBounded s b =
    if-cases (λ (r : ℕ × ExecState). IsBounded r.1) (s.eval_stack_top == 0) (λ empty. b)
      (λ some_value. with_stack (let fits = b.stack in omega arith) b)

fetched-IsBounded :
    (s : ExecState) (r : CodeCache × Option ℕ) → IsBounded s → IsBounded (fetched s r).1
unfolding fetched
fetched-IsBounded s (cache, none) b = b
fetched-IsBounded s (cache, some value) b = b

pub fetch_byte-IsBounded :
    (env : Env) (s : ExecState) → IsBounded s → IsBounded (fetch_byte env s).1
unfolding fetch_byte
fetch_byte-IsBounded env s b = fetched-IsBounded s _ b

pub fetch_le16-IsBounded :
    (env : Env) (s : ExecState) → IsBounded s → IsBounded (fetch_le16 env s).1
unfolding fetch_le16
fetch_le16-IsBounded env s b =
    fetch_byte-IsBounded env (fetch_byte env s).1 (fetch_byte-IsBounded env s b)

pub decode_jump_target-IsBounded :
    (env : Env) (s : ExecState) (start : ℕ)
    → IsBounded s
    → IsBounded (decode_jump_target env s start).1
unfolding decode_jump_target
decode_jump_target-IsBounded env s start b =
    let inside = fetch_byte-IsBounded env s b in
    if-cases (λ (r : ℕ × ExecState). IsBounded r.1) ((fetch_byte env s).0 == 0)
      (λ long. fetch_le16-IsBounded env (fetch_byte env s).1 inside) (λ short. inside)
