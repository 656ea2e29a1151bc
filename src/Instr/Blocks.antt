-- ===== src/Instr/Blocks.antt =====
-- The block instructions: VECSETW, VECSETB, VECCPYW and VECCPYB of src/LinchpinST/src/lpst_run.c.
-- `none` is an access outside the RAM banks.
use linchpin.Base.{ℕ, zero, suc, ◌+◌, ◌*◌, ◌%◌, Option, some, ◌>>=◌, ltb, if◌then◌else◌, u32}
use linchpin.Ram.{Ram, move_ram_bytes}
use linchpin.Aggregate.{handle_to_byte_offset, write_aggregate_word, write_aggregate_payload_byte}
use linchpin.Exec.{ExecState, push, pop}
use linchpin.Instr.Vectors.{with_ram}

-- The loops that fill, `left` rounds from index `vi` on.
unfoldable pub fill_words : Ram → ℕ → ℕ → ℕ → ℕ → Option Ram
fill_words ram handle value zero vi = some ram
fill_words ram handle value (suc left) vi = do
  ram' ← write_aggregate_word ram handle vi value
  fill_words ram' handle value left (vi + 1)

unfoldable pub fill_bytes : Ram → ℕ → ℕ → ℕ → ℕ → Option Ram
fill_bytes ram handle value zero vi = some ram
fill_bytes ram handle value (suc left) vi = do
  ram' ← write_aggregate_payload_byte ram handle vi value
  fill_bytes ram' handle value left (vi + 1)

unfoldable pub vecsetw : ExecState → Option ExecState
vecsetw s = do
  let (fill_val, s1) = pop s
  let (count, s2) = pop s1
  let (handle, s3) = pop s2
  ram ← fill_words s3.memory.ram handle fill_val count 0
  some (push (with_ram s3 ram) handle)

unfoldable pub vecsetb : ExecState → Option ExecState
vecsetb s = do
  let (fill_val, s1) = pop s
  let (count, s2) = pop s1
  let (handle, s3) = pop s2
  ram ← fill_bytes s3.memory.ram handle (fill_val % 256) count 0
  some (push (with_ram s3 ram) handle)

unfoldable pub veccpyw : ExecState → Option ExecState
veccpyw s = do
  let (dst_handle, s1) = pop s
  let (count, s2) = pop s1
  let (src_handle, s3) = pop s2
  ram ←
      move_ram_bytes s3.memory.ram (handle_to_byte_offset dst_handle)
        (handle_to_byte_offset src_handle) (count * 2)
  some (push (with_ram s3 ram) dst_handle)

-- `(uint32_t)(int16_t)offset`
abbrev pub wide : ℕ → ℕ
wide offset = if ltb offset 32768 then offset else offset + 4294901760

unfoldable pub veccpyb : ExecState → Option ExecState
veccpyb s = do
  let (dst_off, s1) = pop s
  let (src_off, s2) = pop s1
  let (dst_handle, s3) = pop s2
  let (count, s4) = pop s3
  let (src_handle, s5) = pop s4
  ram ←
      move_ram_bytes s5.memory.ram (u32 (handle_to_byte_offset dst_handle + 2 + wide dst_off))
        (u32 (handle_to_byte_offset src_handle + 2 + wide src_off)) count
  some (push (with_ram s5 ram) dst_handle)
