-- ===== src/Instr/Text.antt =====
-- Strings and byte blocks: STRPOS, MEMCMP, MEMCMPO, the step over a record's field, the printable
-- character and UNPACK of src/LinchpinST/src/lpst_run_dispatch.c, with LOADVB2 and PUTVB2 of
-- lpst_run.c. `none` is an access outside the RAM banks.
pub mod Search
pub mod Results
use linchpin.Base.{
  ℕ, zero, suc, ◌+◌, ◌-◌, ◌*◌, ◌/◌, ◌%◌, ◌^◌, Bool, true, false, ◌&&◌, Option, none, some, ◌>>=◌,
  bit_or, leb, ltb, ◌==◌, if◌then◌else◌, u8, u16, u32,
}
use linchpin.Ram.{Ram, false_sentinel, read_ram_byte, write_ram_byte}
use linchpin.Aggregate.{
  handle_to_byte_offset, read_aggregate_word, read_aggregate_payload_byte, read_aggregate_raw_byte,
  write_aggregate_payload_byte,
}
use linchpin.Exec.{ExecState, push, pop}
use linchpin.Instr.Vectors.{with_ram, byte_index, push_read, put_written}

-- One round of the search: it ends at a zero byte, or at the byte that is looked for.
unfoldable pub search_from : Ram → ℕ → ℕ → ℕ → ℕ → Option ℕ
search_from ram handle target zero si = some false_sentinel
search_from ram handle target (suc left) si =
    let rest = search_from ram handle target left (si + 1) in
    do
      current ← read_aggregate_payload_byte ram handle si
      if current == 0
          then some false_sentinel
          else (if current == target then some (u16 (si + 1)) else rest)

unfoldable pub position : Ram → ℕ → ℕ → Option ℕ
position ram handle search_char = do
  str_len ← read_aggregate_word ram handle 0
  search_from ram handle (search_char % 256) str_len 0

unfoldable pub strpos : ExecState → Option ExecState
strpos s =
    let (handle, s1) = pop s in
    let (search_char, s2) = pop s1 in
    let searched : Option ExecState = (do
      found ← position s2.memory.ram handle search_char
      some (push s2 found)) in
    if handle == false_sentinel then some (push s2 false_sentinel) else searched

-- One round of a comparison, which ends at the first difference: 1 where the first byte is the
-- smaller one, and -1, as a word, where it is the greater one.
unfoldable pub compare_from : (ℕ → Option ℕ) → (ℕ → Option ℕ) → ℕ → ℕ → Option ℕ
compare_from first second zero ci = some 0
compare_from first second (suc left) ci =
    let rest = compare_from first second left (ci + 1) in
    do
      a ← first ci
      b ← second ci
      if ltb a b then some 1 else (if ltb b a then some 65535 else rest)

unfoldable pub memcmp : ExecState → Option ExecState
memcmp s = do
  let (byte_count, s1) = pop s
  let (first_handle, s2) = pop s1
  let (second_handle, s3) = pop s2
  result ←
      compare_from (read_aggregate_payload_byte s3.memory.ram first_handle)
        (read_aggregate_payload_byte s3.memory.ram second_handle) byte_count 0
  some (push s3 result)

unfoldable pub memcmpo : ExecState → Option ExecState
memcmpo s = do
  let (first_offset, s1) = pop s
  let (byte_count, s2) = pop s1
  let (first_handle, s3) = pop s2
  let (second_handle, s4) = pop s3
  let base1 = handle_to_byte_offset first_handle
  result ←
      compare_from (λ ci. read_ram_byte s4.memory.ram (u32 (base1 + first_offset + ci)))
        (read_aggregate_payload_byte s4.memory.ram second_handle) byte_count 0
  some (push s4 result)

-- The offset behind a field with its key, both with a length before them.
unfoldable pub next_field : ExecState → Option ExecState
next_field s = do
  let (offset, s1) = pop s
  let (handle, s2) = pop s1
  key_length ← read_aggregate_raw_byte s2.memory.ram handle (u32 (offset + 4294967295))
  data_length ← read_aggregate_raw_byte s2.memory.ram handle (offset + key_length + 1)
  some (push s2 (u16 (offset + u16 (key_length + data_length + 3))))

unfoldable pub printable : ExecState → ExecState
printable s =
    let (in_val, s1) = pop s in
    let ch = in_val % 256 in push s1 (if leb 0x20 ch && ltb ch 0x7F then ch else 0x20)

-- The three letters of a word, and whether it is the last one.
abbrev pub first_letter : ℕ → ℕ
first_letter packed = packed / 2 ^ 10 % 32

abbrev pub second_letter : ℕ → ℕ
second_letter packed = packed / 2 ^ 5 % 32

abbrev pub third_letter : ℕ → ℕ
third_letter packed = packed % 32

abbrev pub is_last : ℕ → Bool
is_last packed = packed / 2 ^ 15 % 2 == 1

-- The loop of UNPACK, `left` rounds from word `wi` on. The word that it pushes is the offset behind
-- the letters, or the sentinel after a last word, whose third letter is marked.
unfoldable pub unpack_from : ℕ → ℕ → ℕ → ℕ → Ram → ℕ → Option (Ram × ℕ)
unpack_from src_handle dst_handle zero wi ram dst_offset = some (ram, dst_offset)
unpack_from src_handle dst_handle (suc left) wi ram dst_offset = do
  packed ← read_aggregate_word ram src_handle wi
  ram1 ← write_aggregate_payload_byte ram dst_handle dst_offset (first_letter packed)
  ram2 ← write_aggregate_payload_byte ram1 dst_handle (u16 (dst_offset + 1)) (second_letter packed)
  let third = if is_last packed then bit_or (third_letter packed) 0x80 else third_letter packed
  ram3 ← write_aggregate_payload_byte ram2 dst_handle (u16 (dst_offset + 2)) third
  let rest = unpack_from src_handle dst_handle left (wi + 1) ram3 (u16 (dst_offset + 3))
  if is_last packed then some (ram3, false_sentinel) else rest

unfoldable pub unpack : ExecState → Option ExecState
unpack s =
    let (dst_offset, s1) = pop s in
    let (word_count, s2) = pop s1 in
    let (dst_handle, s3) = pop s2 in
    let (src_handle, s4) = pop s3 in
    let unpacked : Option ExecState = (do
      (ram, result) ← unpack_from src_handle dst_handle word_count 0 s4.memory.ram dst_offset
      some (push (with_ram s4 ram) result)) in
    if ltb s.eval_stack_top 4 then some (push s false_sentinel) else unpacked

-- `base + (uint32_t)(index - 1)` with a signed index.
abbrev pub raw_offset : ℕ → ℕ → ℕ
raw_offset handle index = u32 (handle_to_byte_offset handle + byte_index index)

unfoldable pub loadvb2 : ExecState → Option ExecState
loadvb2 s =
    let (index, s1) = pop s in
    let (handle, s2) = pop s1 in
    push_read s2 handle (read_ram_byte s2.memory.ram (raw_offset handle index))

unfoldable pub putvb2 : ExecState → Option ExecState
putvb2 s =
    let (value, s1) = pop s in
    let (index, s2) = pop s1 in
    let (handle, s3) = pop s2 in
    put_written s3 handle (write_ram_byte s3.memory.ram (raw_offset handle index) (value % 256))
