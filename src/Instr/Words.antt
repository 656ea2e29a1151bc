-- ===== src/Instr/Words.antt =====
-- Shifts, operands, locals by number and program globals: cases of the opcode switch of
-- src/LinchpinST/src/lpst_run.c and of src/LinchpinST/src/lpst_run_dispatch.c.
use linchpin.Base.{
  ℕ, ◌+◌, ◌-◌, ◌*◌, ◌/◌, ◌^◌, Option, none, some, ◌>>=◌, bit_xor, leb, ltb, ◌==◌, if◌then◌else◌,
  u16, update,
}
use linchpin.Ram.{false_sentinel}
use linchpin.Exec.{ExecState, Env, push, pop, peek, fetch_byte, fetch_le16}
use linchpin.Instr.{set_local, local_or_sentinel}

pub data Shift : Type 0 where
  shift_plain : Shift
  shift_arithmetic : Shift

-- Right by `n` bits; a negative word of the arithmetic shift is filled with ones.
unfoldable pub shifted_right : Shift → ℕ → ℕ → ℕ
shifted_right shift_plain val n = val / 2 ^ n
shifted_right shift_arithmetic val n =
    if ltb val 32768 then val / 2 ^ n else 65535 - (65535 - val) / 2 ^ n

-- `none` is a shift by 32 or more, the width of `int`, which C leaves undefined. The other shifts of
-- an `int`, also of a negative one, are those of two's complement.
unfoldable pub shifted : Shift → ℕ → ℕ → Option ℕ
shifted kind val count =
    if ltb count 32768
    then (if leb 32 count then none else some (u16 (val * 2 ^ count)))
    else (if leb 32 (65536 - count) then none else some (shifted_right kind val (65536 - count)))

unfoldable pub shift : Shift → ExecState → Option ExecState
shift kind s = do
  let (count, s1) = pop s
  let (val, s2) = pop s1
  result ← shifted kind val count
  some (push s2 result)

unfoldable pub push_word : Env → ExecState → ExecState
push_word env s = let (word, s1) = fetch_le16 env s in push s1 word

unfoldable pub push_byte : Env → ExecState → ExecState
push_byte env s = let (byte, s1) = fetch_byte env s in push s1 byte

unfoldable pub dup : ExecState → ExecState
dup s = push s (peek s)

unfoldable pub drop : ExecState → ExecState
drop s = (pop s).1

-- INCLV, which leaves the sentinel alone.
unfoldable pub inclv : Env → ExecState → ExecState
inclv env s =
    let (n, s1) = fetch_byte env s in
    if local_or_sentinel s1 n == false_sentinel
    then s1
    else set_local s1 n (u16 (s1.local_storage n + 1))

unfoldable pub putl : Env → ExecState → ExecState
putl env s = let (n, s1) = fetch_byte env s in let (value, s2) = pop s1 in set_local s2 n value

unfoldable pub pushl : Env → ExecState → ExecState
pushl env s = let (n, s1) = fetch_byte env s in push s1 (local_or_sentinel s1 n)

unfoldable pub storel : Env → ExecState → ExecState
storel env s = let (n, s1) = fetch_byte env s in set_local s1 n (peek s1)

-- A program global, if the program has it.
abbrev pub set_global : ExecState → ℕ → ℕ → ExecState
set_global s n value =
    if ltb n s.program_global_count
    then record s { program_globals = update s.program_globals n value }
    else s

unfoldable pub loadg : Env → ExecState → ExecState
loadg env s =
    let (n, s1) = fetch_byte env s in
    push s1 (if ltb n s1.program_global_count then s1.program_globals n else false_sentinel)

unfoldable pub putg : Env → ExecState → ExecState
putg env s = let (n, s1) = fetch_byte env s in let (value, s2) = pop s1 in set_global s2 n value

unfoldable pub storeg : Env → ExecState → ExecState
storeg env s = let (n, s1) = fetch_byte env s in set_global s1 n (peek s1)

-- A program global with 1 or 65535 added.
unfoldable pub step_global : Env → ℕ → ExecState → ExecState
step_global env step s =
    let (n, s1) = fetch_byte env s in
    let value = u16 (s1.program_globals n + step) in
    if ltb n s1.program_global_count
    then push (record s1 { program_globals = update s1.program_globals n value }) value
    else s1

unfoldable pub xor : ExecState → ExecState
xor s = let (val, s1) = pop s in let (val2, s2) = pop s1 in push s2 (bit_xor val val2)

unfoldable pub complement : ExecState → ExecState
complement s = let (val, s1) = pop s in push s1 (65535 - val)
