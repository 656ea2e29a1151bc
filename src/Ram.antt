-- ===== src/Ram.antt =====
-- The 128 KB of RAM and its accessors: the middle of src/LinchpinST/src/lpst_run_core.c, with the
-- sizes of src/LinchpinST/include/lpst_vm.h. `ram_banks` is an array of four banks of 32 KB.
-- An access outside the banks, which C leaves undefined, is `none`. The loops that go from bank to
-- bank take fuel, one round for each byte and one to stop.
pub mod Access
pub mod Words
pub mod Zero
pub mod Move
mod Tests
use linchpin.Base.{
  ℕ, zero, suc, ◌+◌, ◌-◌, ◌*◌, ◌/◌, ◌%◌, ◌^◌, min, bit_or, Bool, ◌&&◌, ◌||◌, Option, none, some,
  ◌>>=◌, ltb, leb, ◌==◌, if◌then◌else◌, u8, u16, u32, Array,
}

abbrev pub bank_bytes : ℕ
bank_bytes = 0x8000

abbrev pub full_ram_bytes : ℕ
full_ram_bytes = 0x20000

abbrev pub segment_size_bytes : ℕ
segment_size_bytes = 0x10000

abbrev pub false_sentinel : ℕ
false_sentinel = 0x8001

-- The byte at an offset of a bank.
abbrev pub Ram : Type 0
Ram = Array (Array ℕ)

unfoldable pub ram_bank_index_for_offset : ℕ → ℕ
ram_bank_index_for_offset byte_offset = byte_offset / 0x8000

unfoldable pub ram_bank_offset_for_offset : ℕ → ℕ
ram_bank_offset_for_offset byte_offset = byte_offset % 0x8000

-- Whether `ram_banks[bank]` is one of the four.
abbrev pub in_banks : ℕ → Bool
in_banks bank = ltb bank 4

unfoldable pub read_ram_byte : Ram → ℕ → Option ℕ
unfolding ram_bank_index_for_offset ram_bank_offset_for_offset
read_ram_byte ram byte_offset =
    let bank_index = ram_bank_index_for_offset byte_offset in
    let bank_offset = ram_bank_offset_for_offset byte_offset in
    if in_banks bank_index then some (ram bank_index bank_offset) else none

-- `ram_banks[bank][offset] = value`
abbrev pub put : Ram → ℕ → ℕ → ℕ → Ram
put ram bank offset value b i = if (b == bank) && (i == offset) then value else ram b i

unfoldable pub write_ram_byte : Ram → ℕ → ℕ → Option Ram
unfolding ram_bank_index_for_offset ram_bank_offset_for_offset
write_ram_byte ram byte_offset value =
    let bank_index = ram_bank_index_for_offset byte_offset in
    let bank_offset = ram_bank_offset_for_offset byte_offset in
    if in_banks bank_index then some (put ram bank_index bank_offset value) else none

-- `memset(&ram_banks[bank][offset], 0, chunk)`
abbrev pub clear : Ram → ℕ → ℕ → ℕ → Ram
clear ram bank offset chunk b i =
    if (b == bank) && leb offset i && ltb i (offset + chunk) then 0 else ram b i

unfoldable pub zero_loop : ℕ → Ram → ℕ → ℕ → Option Ram
unfolding ram_bank_index_for_offset ram_bank_offset_for_offset
zero_loop zero ram byte_offset byte_count = none
zero_loop (suc fuel) ram byte_offset byte_count =
    let bank_index = ram_bank_index_for_offset byte_offset in
    let bank_offset = ram_bank_offset_for_offset byte_offset in
    let chunk = min (bank_bytes - bank_offset) byte_count in
    let rest =
      zero_loop fuel (clear ram bank_index bank_offset chunk) (u32 (byte_offset + chunk))
        (byte_count - chunk) in
    if byte_count == 0 then some ram else (if in_banks bank_index then rest else none)

unfoldable pub zero_ram_bytes : Ram → ℕ → ℕ → Option Ram
unfolding zero_loop
zero_ram_bytes ram byte_offset byte_count = zero_loop (suc byte_count) ram byte_offset byte_count

-- `memmove(&ram_banks[to][to_offset], &ram_banks[from][from_offset], chunk)`
abbrev pub memmove : Ram → ℕ → ℕ → ℕ → ℕ → ℕ → Ram
memmove ram to to_offset from from_offset chunk b i =
    if (b == to) && leb to_offset i && ltb i (to_offset + chunk)
    then ram from (from_offset + (i - to_offset))
    else ram b i

-- The branch `destination_offset < source_offset`, from the first byte up.
forward_loop : ℕ → Ram → ℕ → ℕ → ℕ → Option Ram
unfolding ram_bank_index_for_offset ram_bank_offset_for_offset
forward_loop zero ram destination_offset source_offset byte_count = none
forward_loop (suc fuel) ram destination_offset source_offset byte_count =
    let source_bank_index = ram_bank_index_for_offset source_offset in
    let source_bank_offset = ram_bank_offset_for_offset source_offset in
    let destination_bank_index = ram_bank_index_for_offset destination_offset in
    let destination_bank_offset = ram_bank_offset_for_offset destination_offset in
    let chunk =
      min (min (bank_bytes - source_bank_offset) (bank_bytes - destination_bank_offset))
        byte_count in
    let moved =
      memmove ram destination_bank_index destination_bank_offset source_bank_index
        source_bank_offset chunk in
    let rest =
      forward_loop fuel moved (u32 (destination_offset + chunk)) (u32 (source_offset + chunk))
        (byte_count - chunk) in
    if byte_count == 0
    then some ram
    else (if in_banks source_bank_index && in_banks destination_bank_index then rest else none)

-- The other branch, from the last byte down.
backward_loop : ℕ → Ram → ℕ → ℕ → ℕ → Option Ram
unfolding ram_bank_index_for_offset ram_bank_offset_for_offset
backward_loop zero ram destination_offset source_offset byte_count = none
backward_loop (suc fuel) ram destination_offset source_offset byte_count =
    let source_last = u32 (source_offset + byte_count + 0xffff_ffff) in
    let destination_last = u32 (destination_offset + byte_count + 0xffff_ffff) in
    let source_bank_index = ram_bank_index_for_offset source_last in
    let source_bank_offset = ram_bank_offset_for_offset source_last in
    let destination_bank_index = ram_bank_index_for_offset destination_last in
    let destination_bank_offset = ram_bank_offset_for_offset destination_last in
    let chunk = min (min (source_bank_offset + 1) (destination_bank_offset + 1)) byte_count in
    let moved =
      memmove ram destination_bank_index (destination_bank_offset + 1 - chunk) source_bank_index
        (source_bank_offset + 1 - chunk) chunk in
    let rest = backward_loop fuel moved destination_offset source_offset (byte_count - chunk) in
    if byte_count == 0
    then some ram
    else (if in_banks source_bank_index && in_banks destination_bank_index then rest else none)

unfoldable pub move_ram_bytes : Ram → ℕ → ℕ → ℕ → Option Ram
unfolding forward_loop backward_loop
move_ram_bytes ram destination_offset source_offset byte_count =
    if (byte_count == 0) || (destination_offset == source_offset)
    then some ram
    else (if ltb destination_offset source_offset
        then forward_loop (suc byte_count) ram destination_offset source_offset byte_count
        else backward_loop (suc byte_count) ram destination_offset source_offset byte_count)

unfoldable pub read_ram_word : Ram → ℕ → Option ℕ
unfolding read_ram_byte
read_ram_word ram byte_offset = do
  lo ← read_ram_byte ram byte_offset
  hi ← read_ram_byte ram (u32 (byte_offset + 1))
  some (u16 (bit_or lo (hi * 2 ^ 8)))

unfoldable pub write_ram_word : Ram → ℕ → ℕ → Option Ram
unfolding write_ram_byte
write_ram_word ram byte_offset value = do
  ram' ← write_ram_byte ram byte_offset (value % 256)
  write_ram_byte ram' (u32 (byte_offset + 1)) (u8 (value / 256))
