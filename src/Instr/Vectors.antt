-- ===== src/Instr/Vectors.antt =====
-- The instructions of src/LinchpinST/src/lpst_run.c on vectors and tuples. `none` is an access outside
-- the RAM banks.
use linchpin.Base.{
  ℕ, zero, suc, ◌+◌, ◌-◌, ◌%◌, ◌&&◌, not, Option, some, ◌>>=◌, ltb, ◌==◌, if◌then◌else◌, u32,
}
use linchpin.Ram.{Ram, false_sentinel, write_ram_byte}
use linchpin.Aggregate.{
  handle_to_byte_offset, read_aggregate_word, write_aggregate_word, read_aggregate_payload_byte,
  write_aggregate_payload_byte,
}
use linchpin.Heap.{Memory, allocate_vector, allocate_tuple, release_vector}
use linchpin.Exec.{ExecState, Env, halt_fatal, push, pop, fetch_byte}
use linchpin.Instr.{local_or_sentinel}

abbrev pub with_ram : ExecState → Ram → ExecState
with_ram s ram = record s { memory = record s.memory { ram = ram } }

-- VALLOC and TALLOC: the machine halts on the sentinel, which is pushed all the same.
abbrev pub allocated : ExecState → ℕ → Memory → ExecState
allocated s handle m =
    let s' = record s { memory = m } in
    push (if handle == false_sentinel then halt_fatal s' else s') handle

unfoldable pub valloc : ExecState → Option ExecState
valloc s = do
  let (word_count, s1) = pop s
  (handle, m) ← allocate_vector s1.memory word_count
  some (allocated s1 handle m)

unfoldable pub talloc : ExecState → Option ExecState
talloc s = do
  let (word_count, s1) = pop s
  (handle, m) ← allocate_tuple s1.memory word_count
  some (allocated s1 handle m)

-- The loop that pops the words of a new aggregate, the last one first.
unfoldable pub fill_from_stack : ExecState → ℕ → ℕ → Option ExecState
fill_from_stack s handle zero = some s
fill_from_stack s handle (suc vi) = do
  let (value, s1) = pop s
  ram ← write_aggregate_word s1.memory.ram handle vi value
  fill_from_stack (with_ram s1 ram) handle vi

-- VALLOCI and TALLOCI, after the allocation.
abbrev pub initialized : ExecState → ℕ → ℕ → Memory → Option ExecState
initialized s word_count handle m =
    let s' = record s { memory = m } in
    let filled : Option ExecState = (do
      s'' ← fill_from_stack s' handle word_count
      some (push s'' handle)) in
    if handle == false_sentinel then some (push (halt_fatal s') handle) else filled

unfoldable pub valloci : ExecState → Option ExecState
valloci s = do
  let (word_count, s1) = pop s
  (handle, m) ← allocate_vector s1.memory word_count
  initialized s1 word_count handle m

unfoldable pub talloci : ExecState → Option ExecState
talloci s = do
  let (word_count, s1) = pop s
  (handle, m) ← allocate_tuple s1.memory word_count
  initialized s1 word_count handle m

unfoldable pub vfree : ExecState → ExecState
vfree s =
    let (size_words, s1) = pop s in
    let (handle, s2) = pop s1 in record s2 { memory = release_vector s2.memory handle size_words }

-- What is read is pushed; a handle that is the sentinel halts.
abbrev pub push_read : ExecState → ℕ → Option ℕ → Option ExecState
push_read s handle value =
    let read : Option ExecState = (do v ← value; some (push s v)) in
    if handle == false_sentinel then some (halt_fatal s) else read

-- A 1-based word index, except with the handles 0 and the sentinel, or as 0.
abbrev pub resolved : ℕ → ℕ → ℕ
resolved handle index =
    if not (handle == 0) && not (handle == false_sentinel) && ltb 0 index then index - 1 else index

-- `(int16_t)index - 1` as the `uint32_t` that the accessors cast it to.
abbrev pub byte_index : ℕ → ℕ
byte_index index = u32 ((if ltb index 32768 then index else index + 4294901760) + 4294967295)

-- The short form, with the handle in a local.
unfoldable pub vloadw_local : ExecState → ℕ → ℕ → Option ExecState
vloadw_local s local_index word_index =
    let handle = local_or_sentinel s local_index in
    push_read s handle (read_aggregate_word s.memory.ram handle word_index)

unfoldable pub vloadw : ExecState → Option ExecState
vloadw s =
    let (index, s1) = pop s in
    let (handle, s2) = pop s1 in
    push_read s2 handle (read_aggregate_word s2.memory.ram handle (resolved handle index))

unfoldable pub vloadb : ExecState → Option ExecState
vloadb s =
    let (index, s1) = pop s in
    let (handle, s2) = pop s1 in
    push_read s2 handle (read_aggregate_payload_byte s2.memory.ram handle (byte_index index))

unfoldable pub vloadw_immediate : Env → ExecState → Option ExecState
vloadw_immediate env s =
    let (index, s1) = fetch_byte env s in
    let (handle, s2) = pop s1 in
    push_read s2 handle (read_aggregate_word s2.memory.ram handle index)

unfoldable pub vloadb_immediate : Env → ExecState → Option ExecState
vloadb_immediate env s =
    let (index, s1) = fetch_byte env s in
    let (handle, s2) = pop s1 in
    push_read s2 handle (read_aggregate_payload_byte s2.memory.ram handle index)

-- What is written; a handle that is the sentinel is passed over.
abbrev pub put_written : ExecState → ℕ → Option Ram → Option ExecState
put_written s handle written =
    let put_in : Option ExecState = (do ram ← written; some (with_ram s ram)) in
    if handle == false_sentinel then some s else put_in

unfoldable pub vputw : ExecState → Option ExecState
vputw s =
    let (value, s1) = pop s in
    let (index, s2) = pop s1 in
    let (handle, s3) = pop s2 in
    put_written s3 handle (write_aggregate_word s3.memory.ram handle (resolved handle index) value)

unfoldable pub vputb : ExecState → Option ExecState
vputb s =
    let (value, s1) = pop s in
    let (index, s2) = pop s1 in
    let (handle, s3) = pop s2 in
    put_written s3 handle
      (write_aggregate_payload_byte s3.memory.ram handle (byte_index index) (value % 256))

unfoldable pub vputw_immediate : Env → ExecState → Option ExecState
vputw_immediate env s =
    let (index, s1) = fetch_byte env s in
    let (value, s2) = pop s1 in
    let (handle, s3) = pop s2 in
    put_written s3 handle (write_aggregate_word s3.memory.ram handle index value)

unfoldable pub vputb_immediate : Env → ExecState → Option ExecState
vputb_immediate env s =
    let (index, s1) = fetch_byte env s in
    let (value, s2) = pop s1 in
    let (handle, s3) = pop s2 in
    put_written s3 handle
      (write_ram_byte s3.memory.ram (u32 (handle_to_byte_offset handle + 2 + index)) (value % 256))
