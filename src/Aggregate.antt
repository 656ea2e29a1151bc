-- ===== src/Aggregate.antt =====
-- Aggregates (vectors and tuples) in the RAM by their handles: the handle coding of
-- src/LinchpinST/src/lpst_run_core.c and lpst_run_runtime.c, and the accessors of lpst_run_core.c.
-- An index of C type `int` is given as the `uint32_t` that the code casts it to.
pub mod Handles
pub mod Laws
mod Tests
use linchpin.Base.{
  ℕ, ◌+◌, ◌*◌, ◌/◌, ◌%◌, Bool, ◌&&◌, not, Option, bit_or, leb, ◌==◌, if◌then◌else◌, u16, u32,
}
use linchpin.Ram.{
  Ram, segment_size_bytes, false_sentinel, read_ram_byte, write_ram_byte, read_ram_word,
  write_ram_word, move_ram_bytes,
}

-- `handle & 0x8000` is the bit above the other 15, `handle & 0x7FFF` those.
unfoldable pub handle_to_byte_offset : ℕ → ℕ
handle_to_byte_offset handle =
    let segment_base = if handle / 0x8000 % 2 == 0 then 0 else 0x10000 in
    let word_addr = handle % 0x8000 in segment_base + word_addr * 2

unfoldable pub encode_handle : ℕ → ℕ
encode_handle byte_offset =
    let segment_bit = if leb segment_size_bytes byte_offset then 0x8000 else 0 in
    let word_addr = u16 (byte_offset % 0x10000 / 2) in bit_or segment_bit word_addr

unfoldable pub read_aggregate_word : Ram → ℕ → ℕ → Option ℕ
read_aggregate_word ram handle word_index =
    let base = handle_to_byte_offset handle in read_ram_word ram (u32 (base + word_index * 2))

unfoldable pub write_aggregate_word : Ram → ℕ → ℕ → ℕ → Option Ram
write_aggregate_word ram handle word_index value =
    let base = handle_to_byte_offset handle in
    write_ram_word ram (u32 (base + word_index * 2)) value

unfoldable pub read_aggregate_payload_byte : Ram → ℕ → ℕ → Option ℕ
read_aggregate_payload_byte ram handle byte_index =
    let base = handle_to_byte_offset handle in read_ram_byte ram (u32 (base + 2 + byte_index))

unfoldable pub read_aggregate_raw_byte : Ram → ℕ → ℕ → Option ℕ
read_aggregate_raw_byte ram handle raw_byte_offset =
    let base = handle_to_byte_offset handle in read_ram_byte ram (u32 (base + raw_byte_offset))

unfoldable pub write_aggregate_payload_byte : Ram → ℕ → ℕ → ℕ → Option Ram
write_aggregate_payload_byte ram handle byte_index value =
    let base = handle_to_byte_offset handle in
    write_ram_byte ram (u32 (base + 2 + byte_index)) value

unfoldable pub copy_aggregate_bytes : Ram → ℕ → ℕ → ℕ → ℕ → ℕ → Option Ram
copy_aggregate_bytes ram source_handle source_offset destination_handle destination_offset count =
    move_ram_bytes ram (u32 (handle_to_byte_offset destination_handle + 2 + destination_offset))
      (u32 (handle_to_byte_offset source_handle + 2 + source_offset)) count

unfoldable pub copy_aggregate_raw_bytes_to_payload : Ram → ℕ → ℕ → ℕ → ℕ → ℕ → Option Ram
copy_aggregate_raw_bytes_to_payload ram source_handle source_offset destination_handle
      destination_offset count =
    move_ram_bytes ram (u32 (handle_to_byte_offset destination_handle + 2 + destination_offset))
      (u32 (handle_to_byte_offset source_handle + source_offset)) count

unfoldable pub is_usable_aggregate_handle : ℕ → Bool
is_usable_aggregate_handle handle = not (handle == 0) && not (handle == false_sentinel)
