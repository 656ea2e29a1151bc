-- ===== src/BitField/Tests.antt =====
-- Examples for the theorems on bit fields.
use linchpin.Base.{ℕ, ◌+◌, ◌-◌, ◌*◌, ◌%◌, ◌^◌, ◌≡◌, some, ◌&&◌, leb, ltb, if◌then◌else◌, arith}
use linchpin.Base.Bits.{bit}
use linchpin.Ram.{Ram}
use linchpin.Aggregate.{handle_to_byte_offset, read_aggregate_word}
use linchpin.Aggregate.Laws.{IsBytes}
use linchpin.BitField.{shift_of, width_of, replaced, extract_bit_field, replace_bit_field}
use linchpin.BitField.Laws.{bit-replaced}
use linchpin.BitField.RoundTrip.{extract_bit_field-replace_bit_field}

abbrev sample_ram : Ram
sample_ram b i = (b * 7 + i) % 256

sample_ram-IsBytes : IsBytes sample_ram
sample_ram-IsBytes p = omega arith

-- Five bits from bit 4 on, in word 2.
abbrev control : ℕ
control = 0x4502

extract_bit_field-replace_bit_field_example :
    (ram' : Ram) × (replace_bit_field sample_ram 0x10 control 0x13 ≡ some ram')
    × IsBytes ram'
    × (extract_bit_field ram' 0x10 control ≡ some (0x13 % 2 ^ width_of control))
    × (read_aggregate_word ram' 0x10 3 ≡ read_aggregate_word sample_ram 0x10 3)
unfolding handle_to_byte_offset
extract_bit_field-replace_bit_field_example =
    extract_bit_field-replace_bit_field sample_ram 0x10 control 0x13 3 sample_ram-IsBytes
      (omega arith) (omega arith) (omega arith) (ground arith)

bit-replaced_example : bit (replaced 0xabcd control 0x13) 8 ≡ (
    if leb (shift_of control) 8 && ltb 8 (shift_of control + width_of control)
    then bit 0x13 (8 - shift_of control)
    else bit 0xabcd 8)
bit-replaced_example = bit-replaced 0xabcd control 0x13 8 (omega arith)
