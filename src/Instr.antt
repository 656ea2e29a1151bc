-- ===== src/Instr.antt =====
-- Instructions of the main loop of src/LinchpinST/src/lpst_run.c: locals and numbers here, the others
-- in the modules below. Each function is one case of the opcode switch, or the cases that differ in
-- one operation only.
pub mod Vectors
pub mod Jumps
pub mod Modulus
pub mod Locals
pub mod Words
pub mod Blocks
pub mod Control
pub mod Fields
pub mod Text
pub mod Order
pub mod Dispatch
pub mod Run
pub mod Bounded
pub mod Samples
mod Tests
use linchpin.Base.{
  ℕ, zero, suc, ◌+◌, ◌-◌, ◌*◌, ◌/◌, ◌%◌, Bool, true, false, ◌&&◌, not, Option, none, some, ◌>>=◌,
  bit_and, bit_or, leb, ltb, ◌==◌, if◌then◌else◌, u16, u32, update,
}
use linchpin.Ram.{Ram, false_sentinel, write_ram_byte, move_ram_bytes}
use linchpin.Aggregate.{
  handle_to_byte_offset, read_aggregate_word, write_aggregate_word, read_aggregate_payload_byte,
  write_aggregate_payload_byte,
}
use linchpin.Heap.{Memory, allocate_vector, allocate_tuple, release_vector}
use linchpin.Exec.{ExecState, Env, halt_fatal, push, pop, peek, fetch_byte, decode_jump_target}

-- A local, if the frame has it.
unfoldable pub set_local : ExecState → ℕ → ℕ → ExecState
set_local s n value =
    if ltb n s.current_frame.local_count
    then record s { local_storage = update s.local_storage n value }
    else s

abbrev pub local_or_sentinel : ExecState → ℕ → ℕ
local_or_sentinel s n =
    if ltb n s.current_frame.local_count then s.local_storage n else false_sentinel

unfoldable pub store_local_peek : ExecState → ℕ → ExecState
store_local_peek s n = set_local s n (peek s)

unfoldable pub store_local_pop : ExecState → ℕ → ExecState
store_local_pop s n = let (value, s') = pop s in set_local s' n value

unfoldable pub load_local : ExecState → ℕ → ExecState
load_local s n = push s (local_or_sentinel s n)

-- INCL and DECL, with 1 or 65535 to add.
unfoldable pub step_local : Env → ℕ → ExecState → ExecState
step_local env step s =
    let (n, s1) = fetch_byte env s in
    let value = u16 (s1.local_storage n + step) in
    if ltb n s1.current_frame.local_count
    then push (record s1 { local_storage = update s1.local_storage n value }) value
    else s1

-- 16-bit words read as signed numbers: the magnitude, and the word of a negated one.
abbrev pub magnitude : ℕ → ℕ
magnitude v = if ltb v 32768 then v else 65536 - v

abbrev pub negated : ℕ → ℕ
negated v = u16 (65536 - v)

abbrev pub signed_less : ℕ → ℕ → Bool
signed_less a b = ltb (u16 (a + 32768)) (u16 (b + 32768))

-- The quotient of C, which truncates toward zero.
unfoldable pub quotient : ℕ → ℕ → ℕ
quotient val val2 =
    let q = magnitude val / magnitude val2 in
    if val2 == 0
    then 0
    else (if ltb val 32768
        then (if ltb val2 32768 then u16 q else negated q)
        else (if ltb val2 32768 then negated q else u16 q))

-- The remainder of C has the dividend's sign; where it is negative the divisor is added.
unfoldable pub modulus : ℕ → ℕ → ℕ
modulus dividend divisor =
    let m = magnitude dividend % magnitude divisor in
    let rem = if ltb dividend 32768 then m else negated m in
    if divisor == 0 then 0 else (if leb 32768 rem then u16 (rem + divisor) else rem)

pub data Binary : Type 0 where
  op_add : Binary
  op_sub : Binary
  op_mul : Binary
  op_div : Binary
  op_mod : Binary
  op_and : Binary
  op_or : Binary

unfoldable pub result_of : Binary → ℕ → ℕ → ℕ
result_of op_add val val2 = u16 (val + val2)
result_of op_sub val val2 = u16 (val + 65536 - val2)
result_of op_mul val val2 = u16 (val * val2)
result_of op_div val val2 = quotient val val2
result_of op_mod val val2 = modulus val val2
result_of op_and val val2 = bit_and val val2
result_of op_or val val2 = bit_or val val2

unfoldable pub binary : Binary → ExecState → ExecState
binary op s = let (val2, s1) = pop s in let (val, s2) = pop s1 in push s2 (result_of op val val2)

unfoldable pub negate : ExecState → ExecState
negate s = let (val, s1) = pop s in push s1 (negated val)
