-- ===== src/Instr/Bounded.antt =====
-- The bounds of the machine's arrays, kept by the instructions of src/LinchpinST/src/lpst_run.c on
-- locals and numbers, and by the allocations.
pub mod Vectors
pub mod Words
pub mod Control
pub mod Tables
pub mod Steps
use linchpin.Base.{
  ℕ, zero, suc, ◌+◌, ◌%◌, Bool, Option, none, some, ◌>>=◌, leb, ltb, ◌==◌, if-cases, u16,
}
use linchpin.Base.Options.{Each, none-Each, some-Each, >>=-Each, then-Each}
use linchpin.Ram.{Ram, false_sentinel}
use linchpin.Aggregate.{write_aggregate_word}
use linchpin.Heap.{Memory, allocate_vector, allocate_tuple}
use linchpin.Exec.{ExecState, Env, halt_fatal, push, pop, peek, fetch_byte, decode_jump_target}
use linchpin.Exec.Bounded.{
  IsBounded, push-IsBounded, pop-IsBounded, fetch_byte-IsBounded, decode_jump_target-IsBounded,
}
use linchpin.Instr.{
  set_local, store_local_peek, store_local_pop, load_local, step_local, Binary, binary, negate,
}
use linchpin.Instr.Vectors.{
  allocated, valloc, talloc, fill_from_stack, initialized, valloci, talloci, vfree, push_read,
  put_written, with_ram, vloadw_local, vloadw, vloadb, vloadw_immediate, vloadb_immediate, vputw,
  vputb, vputw_immediate, vputb_immediate,
}
use linchpin.Instr.Jumps.{
  Condition, holds, go_if, jump, jump_if, Comparison, compares, jump_comparing,
}

pub set_local-IsBounded :
    (s : ExecState) (n value : ℕ) → IsBounded s → IsBounded (set_local s n value)
unfolding set_local
set_local-IsBounded s n value b =
    if-cases IsBounded (ltb n s.current_frame.local_count) (λ has. b) (λ lacks. b)

pub store_local_peek-IsBounded :
    (s : ExecState) (n : ℕ) → IsBounded s → IsBounded (store_local_peek s n)
unfolding store_local_peek
store_local_peek-IsBounded s n b = set_local-IsBounded s n (peek s) b

pub store_local_pop-IsBounded :
    (s : ExecState) (n : ℕ) → IsBounded s → IsBounded (store_local_pop s n)
unfolding store_local_pop
store_local_pop-IsBounded s n b = set_local-IsBounded (pop s).1 n (pop s).0 (pop-IsBounded s b)

pub load_local-IsBounded : (s : ExecState) (n : ℕ) → IsBounded s → IsBounded (load_local s n)
unfolding load_local
load_local-IsBounded s n b = push-IsBounded s _ b

pub step_local-IsBounded :
    (env : Env) (step : ℕ) (s : ExecState) → IsBounded s → IsBounded (step_local env step s)
unfolding step_local
step_local-IsBounded env step s b =
    let b1 = fetch_byte-IsBounded env s b in
    if-cases IsBounded (ltb (fetch_byte env s).0 (fetch_byte env s).1.current_frame.local_count)
      (λ has. push-IsBounded _ _ b1) (λ lacks. b1)

pub binary-IsBounded : (op : Binary) (s : ExecState) → IsBounded s → IsBounded (binary op s)
unfolding binary
binary-IsBounded op s b =
    push-IsBounded (pop (pop s).1).1 _ (pop-IsBounded (pop s).1 (pop-IsBounded s b))

pub negate-IsBounded : (s : ExecState) → IsBounded s → IsBounded (negate s)
unfolding negate
negate-IsBounded s b = push-IsBounded (pop s).1 _ (pop-IsBounded s b)

allocated-IsBounded :
    (s : ExecState) (handle : ℕ) (m : Memory) → IsBounded s → IsBounded (allocated s handle m)
allocated-IsBounded s handle m b =
    push-IsBounded _ handle (if-cases IsBounded (handle == false_sentinel) (λ full. b) (λ room. b))

pub valloc-IsBounded : (s : ExecState) → IsBounded s → Each IsBounded (valloc s)
unfolding valloc
valloc-IsBounded s b =
    then-Each (allocate_vector (pop s).1.memory (pop s).0) _
      (λ r. some-Each (allocated-IsBounded (pop s).1 r.0 r.1 (pop-IsBounded s b)))

pub talloc-IsBounded : (s : ExecState) → IsBounded s → Each IsBounded (talloc s)
unfolding talloc
talloc-IsBounded s b =
    then-Each (allocate_tuple (pop s).1.memory (pop s).0) _
      (λ r. some-Each (allocated-IsBounded (pop s).1 r.0 r.1 (pop-IsBounded s b)))

fill_from_stack-IsBounded :
    (s : ExecState) (handle left : ℕ) → IsBounded s → Each IsBounded (fill_from_stack s handle left)
unfolding fill_from_stack
fill_from_stack-IsBounded s handle zero b = some-Each b
fill_from_stack-IsBounded s handle (suc left) b =
    then-Each (write_aggregate_word (pop s).1.memory.ram handle left (pop s).0) _
      (λ ram. fill_from_stack-IsBounded (with_ram (pop s).1 ram) handle left (pop-IsBounded s b))

initialized-IsBounded :
    (s : ExecState) (count handle : ℕ) (m : Memory)
    → IsBounded s
    → Each IsBounded (initialized s count handle m)
initialized-IsBounded s count handle m b =
    if-cases (Each IsBounded) (handle == false_sentinel)
      (λ full. some-Each (push-IsBounded _ handle b))
      (λ room.
        >>=-Each _ (fill_from_stack-IsBounded (record s { memory = m }) handle count b)
          (λ s'' b''. some-Each (push-IsBounded s'' handle b'')))

pub valloci-IsBounded : (s : ExecState) → IsBounded s → Each IsBounded (valloci s)
unfolding valloci
valloci-IsBounded s b =
    then-Each (allocate_vector (pop s).1.memory (pop s).0) _
      (λ r. initialized-IsBounded (pop s).1 (pop s).0 r.0 r.1 (pop-IsBounded s b))

pub talloci-IsBounded : (s : ExecState) → IsBounded s → Each IsBounded (talloci s)
unfolding talloci
talloci-IsBounded s b =
    then-Each (allocate_tuple (pop s).1.memory (pop s).0) _
      (λ r. initialized-IsBounded (pop s).1 (pop s).0 r.0 r.1 (pop-IsBounded s b))

pub vfree-IsBounded : (s : ExecState) → IsBounded s → IsBounded (vfree s)
unfolding vfree
vfree-IsBounded s b = pop-IsBounded (pop s).1 (pop-IsBounded s b)

pub push_read-IsBounded :
    (s : ExecState) (handle : ℕ) (value : Option ℕ)
    → IsBounded s
    → Each IsBounded (push_read s handle value)
push_read-IsBounded s handle value b =
    if-cases (Each IsBounded) (handle == false_sentinel) (λ absent. some-Each b)
      (λ present. then-Each value _ (λ v. some-Each (push-IsBounded s v b)))

pub put_written-IsBounded :
    (s : ExecState) (handle : ℕ) (written : Option Ram)
    → IsBounded s
    → Each IsBounded (put_written s handle written)
put_written-IsBounded s handle written b =
    if-cases (Each IsBounded) (handle == false_sentinel) (λ absent. some-Each b)
      (λ present. then-Each written _ (λ ram. some-Each b))
